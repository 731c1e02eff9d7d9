-- ===== src/Slab/Cache/Moves.antt =====
-- The three lists of a cache of src/mm/allocator.c, and the slabs that move between them.
use ios.Prelude.{
  ℕ, ◌+◌, ◌-◌, ◌≡◌, ◌≢◌, List, [], ◌∷◌, ◌++◌, arith, sym, refl, ◌∙◌, ==_iff, ne→==_false, All-at,
  append_nil,
}
use mathlib.Core.Path.{subst}
use ios.Mem.{Mem, store}
use ios.Slab.Links.{Links}
use ios.Slab.Links.Rings.{Fresh}
use ios.Slab.Links.Owned.{IsRing, list_append-list_remove, Fresh-unowned, Distinct-without}
use ios.Slab.Cache.{full, partial, free_list, move_slab, alloc_moves, dealloc_moves}

pub record IsRings (l : Links) (own : Mem) (cache : ℕ) (fs ps es : List ℕ) : Type 0 where
  pub fulls : IsRing l own (full cache) fs
  pub partials : IsRing l own (partial cache) ps
  pub frees : IsRing l own (free_list cache) es

-- The lists after moves of the slab x alone.
abbrev pub MovedRings : Mem → ℕ → Links → ℕ → List ℕ → List ℕ → List ℕ → Type 0
MovedRings own x l cache fs ps es =
    (own' : Mem) × IsRings l own' cache fs ps es × ((y : ℕ) → y ≢ x → own' y ≡ own y)

moved-own : (own : Mem) (x g y : ℕ) → y ≢ x → store (store own x x) x g y ≡ own y
unfolding store
moved-own own x g y ne = ground arith

partial_to_full :
    {l : Links} {own : Mem} {cache : ℕ} {fs es : List ℕ} (ls : List ℕ) (x : ℕ) (rs : List ℕ)
    → IsRings l own cache fs (ls ++ x ∷ rs) es
    → MovedRings own x (move_slab x (full cache) l) cache (fs ++ x ∷ []) (ls ++ rs) es
unfolding move_slab
partial_to_full {l} {own} {cache} ls x rs r =
    let (from, to, third) = list_append-list_remove ls x rs r.partials r.fulls (omega arith) in
    (
      store (store own x x) x (full cache),
      record {
        fulls = to;
        partials = from;
        frees = third (free_list cache) _ (omega arith) (omega arith) r.frees;
      },
      moved-own own x (full cache),
    )

partial_to_free :
    {l : Links} {own : Mem} {cache : ℕ} {fs es : List ℕ} (ls : List ℕ) (x : ℕ) (rs : List ℕ)
    → IsRings l own cache fs (ls ++ x ∷ rs) es
    → MovedRings own x (move_slab x (free_list cache) l) cache fs (ls ++ rs) (es ++ x ∷ [])
unfolding move_slab
partial_to_free {l} {own} {cache} ls x rs r =
    let (from, to, third) = list_append-list_remove ls x rs r.partials r.frees (omega arith) in
    (
      store (store own x x) x (free_list cache),
      record {
        fulls = third (full cache) _ (omega arith) (omega arith) r.fulls;
        partials = from;
        frees = to;
      },
      moved-own own x (free_list cache),
    )

free_to_partial :
    {l : Links} {own : Mem} {cache : ℕ} {fs ps : List ℕ} (ls : List ℕ) (x : ℕ) (rs : List ℕ)
    → IsRings l own cache fs ps (ls ++ x ∷ rs)
    → MovedRings own x (move_slab x (partial cache) l) cache fs (ps ++ x ∷ []) (ls ++ rs)
unfolding move_slab
free_to_partial {l} {own} {cache} ls x rs r =
    let (from, to, third) = list_append-list_remove ls x rs r.frees r.partials (omega arith) in
    (
      store (store own x x) x (partial cache),
      record {
        fulls = third (full cache) _ (omega arith) (omega arith) r.fulls;
        partials = to;
        frees = from;
      },
      moved-own own x (partial cache),
    )

full_to_partial :
    {l : Links} {own : Mem} {cache : ℕ} {ps es : List ℕ} (ls : List ℕ) (x : ℕ) (rs : List ℕ)
    → IsRings l own cache (ls ++ x ∷ rs) ps es
    → MovedRings own x (move_slab x (partial cache) l) cache (ls ++ rs) (ps ++ x ∷ []) es
unfolding move_slab
full_to_partial {l} {own} {cache} ls x rs r =
    let (from, to, third) = list_append-list_remove ls x rs r.fulls r.partials (omega arith) in
    (
      store (store own x x) x (partial cache),
      record {
        fulls = from;
        partials = to;
        frees = third (free_list cache) _ (omega arith) (omega arith) r.frees;
      },
      moved-own own x (partial cache),
    )

-- `cache_alloc` on the first partial slab, of which some objects are taken.
pub alloc_moves-stays :
    {own : Mem} {l : Links} {cache x before n : ℕ} {fs ps es : List ℕ}
    → before ≢ 0
    → before + 1 ≢ n
    → IsRings l own cache fs ps es
    → MovedRings own x (alloc_moves cache x before n l) cache fs ps es
unfolding alloc_moves
alloc_moves-stays {own} {l} {cache} {x} {before} {n} nz nn r =
    rw (ne→==_false before 0 nz, ne→==_false (before + 1) n nn) (own, r, λ y ne. refl)

pub alloc_moves-fills :
    {own : Mem} {l : Links} {cache x before n : ℕ} {fs ps es : List ℕ}
    → before ≢ 0
    → before + 1 ≡ n
    → IsRings l own cache fs (x ∷ ps) es
    → MovedRings own x (alloc_moves cache x before n l) cache (fs ++ x ∷ []) ps es
unfolding alloc_moves
alloc_moves-fills {own} {l} {cache} {x} {before} {n} nz nn r =
    rw (ne→==_false before 0 nz, (==_iff (before + 1) n).1 nn) (partial_to_full [] x _ r)

-- And on the first free slab.
pub alloc_moves-opens :
    {own : Mem} {l : Links} {cache x before n : ℕ} {fs ps es : List ℕ}
    → before ≡ 0
    → before + 1 ≢ n
    → IsRings l own cache fs ps (x ∷ es)
    → MovedRings own x (alloc_moves cache x before n l) cache fs (ps ++ x ∷ []) es
unfolding alloc_moves
alloc_moves-opens {own} {l} {cache} {x} {before} {n} z nn r =
    rw ((==_iff before 0).1 z, ne→==_false (before + 1) n nn) (free_to_partial [] x _ r)

MovedRings-then :
    {own : Mem} {x : ℕ} {l l' : Links} {cache : ℕ} {fs ps es fs' ps' es' : List ℕ}
    → MovedRings own x l cache fs ps es
    → ((own1 : Mem) → IsRings l own1 cache fs ps es → MovedRings own1 x l' cache fs' ps' es')
    → MovedRings own x l' cache fs' ps' es'
MovedRings-then (own1, r1, keep1) f =
    let (own2, r2, keep2) = f own1 r1 in (own2, r2, λ y ne. keep2 y ne ∙ keep1 y ne)

pub alloc_moves-opens_fills :
    {own : Mem} {l : Links} {cache x before n : ℕ} {fs ps es : List ℕ}
    → before ≡ 0
    → before + 1 ≡ n
    → IsRings l own cache fs ps (x ∷ es)
    → MovedRings own x (alloc_moves cache x before n l) cache (fs ++ x ∷ []) ps es
unfolding alloc_moves
alloc_moves-opens_fills {own} {l} {cache} {x} {before} {n} {fs} {ps} {es} z nn r =
    rw ((==_iff before 0).1 z, (==_iff (before + 1) n).1 nn)
      (MovedRings-then (free_to_partial [] x es r) (λ own1 r1.
        subst
          (λ qs.
            MovedRings own1 x (move_slab x (full cache) (move_slab x (partial cache) l)) cache
              (fs ++ x ∷ []) qs es)
          (append_nil ps) (partial_to_full ps x [] r1)))

-- `cache_dealloc_within` on a partial slab that stays so, and on one whose objects are all free then.
pub dealloc_moves-stays :
    {own : Mem} {l : Links} {cache x before n : ℕ} {fs ps es : List ℕ}
    → before ≢ n
    → before - 1 ≢ 0
    → IsRings l own cache fs ps es
    → MovedRings own x (dealloc_moves cache x before n l) cache fs ps es
unfolding dealloc_moves
dealloc_moves-stays {own} {l} {cache} {x} {before} {n} nn nz r =
    rw (ne→==_false before n nn, ne→==_false (before - 1) 0 nz) (own, r, λ y ne. refl)

pub dealloc_moves-empties :
    {own : Mem} {l : Links} {cache before n : ℕ} {fs es : List ℕ} (ls : List ℕ) (x : ℕ)
    (rs : List ℕ)
    → before ≢ n
    → before - 1 ≡ 0
    → IsRings l own cache fs (ls ++ x ∷ rs) es
    → MovedRings own x (dealloc_moves cache x before n l) cache fs (ls ++ rs) (es ++ x ∷ [])
unfolding dealloc_moves
dealloc_moves-empties {own} {l} {cache} {before} {n} ls x rs nn z r =
    rw (ne→==_false before n nn, (==_iff (before - 1) 0).1 z) (partial_to_free ls x rs r)

-- And on a full slab.
pub dealloc_moves-opens :
    {own : Mem} {l : Links} {cache before n : ℕ} {ps es : List ℕ} (ls : List ℕ) (x : ℕ)
    (rs : List ℕ)
    → before ≡ n
    → before - 1 ≢ 0
    → IsRings l own cache (ls ++ x ∷ rs) ps es
    → MovedRings own x (dealloc_moves cache x before n l) cache (ls ++ rs) (ps ++ x ∷ []) es
unfolding dealloc_moves
dealloc_moves-opens {own} {l} {cache} {before} {n} ls x rs nn z r =
    rw ((==_iff before n).1 nn, ne→==_false (before - 1) 0 z) (full_to_partial ls x rs r)

pub dealloc_moves-opens_empties :
    {own : Mem} {l : Links} {cache before n : ℕ} {ps es : List ℕ} (ls : List ℕ) (x : ℕ)
    (rs : List ℕ)
    → before ≡ n
    → before - 1 ≡ 0
    → IsRings l own cache (ls ++ x ∷ rs) ps es
    → MovedRings own x (dealloc_moves cache x before n l) cache (ls ++ rs) ps (es ++ x ∷ [])
unfolding dealloc_moves
dealloc_moves-opens_empties {own} {l} {cache} {before} {n} {ps} {es} ls x rs nn z r =
    rw ((==_iff before n).1 nn, (==_iff (before - 1) 0).1 z)
      (MovedRings-then (full_to_partial ls x rs r) (λ own1 r1.
        subst
          (λ qs.
            MovedRings own1 x (move_slab x (free_list cache) (move_slab x (partial cache) l)) cache
              (ls ++ rs) qs (es ++ x ∷ []))
          (append_nil ps) (partial_to_free ps x [] r1)))

-- A slab of one list is in no other and once in its own.
pub full-Fresh :
    {l : Links} {own : Mem} {cache : ℕ} {ps es : List ℕ} (ls : List ℕ) (x : ℕ) (rs : List ℕ)
    → IsRings l own cache (ls ++ x ∷ rs) ps es
    → Fresh x (ls ++ rs) × Fresh x ps × Fresh x es
full-Fresh {l} {own} {cache} ls x rs r =
    let o = All-at (λ y. own y ≡ full cache) ls x rs r.fulls.owned in
    (
      (Distinct-without ls x rs r.fulls.distinct).0,
      Fresh-unowned own (partial cache) x _ (λ e. differ (sym o ∙ e)) r.partials.owned,
      Fresh-unowned own (free_list cache) x _ (λ e. apart (sym o ∙ e)) r.frees.owned,
    )
  where
    differ : full cache ≢ partial cache
    differ = omega arith

    apart : full cache ≢ free_list cache
    apart = omega arith

pub partial-Fresh :
    {l : Links} {own : Mem} {cache : ℕ} {fs es : List ℕ} (ls : List ℕ) (x : ℕ) (rs : List ℕ)
    → IsRings l own cache fs (ls ++ x ∷ rs) es
    → Fresh x fs × Fresh x (ls ++ rs) × Fresh x es
partial-Fresh {l} {own} {cache} ls x rs r =
    let o = All-at (λ y. own y ≡ partial cache) ls x rs r.partials.owned in
    (
      Fresh-unowned own (full cache) x _ (λ e. differ (sym o ∙ e)) r.fulls.owned,
      (Distinct-without ls x rs r.partials.distinct).0,
      Fresh-unowned own (free_list cache) x _ (λ e. apart (sym o ∙ e)) r.frees.owned,
    )
  where
    differ : partial cache ≢ full cache
    differ = omega arith

    apart : partial cache ≢ free_list cache
    apart = omega arith

pub free_list-Fresh :
    {l : Links} {own : Mem} {cache : ℕ} {fs ps : List ℕ} (ls : List ℕ) (x : ℕ) (rs : List ℕ)
    → IsRings l own cache fs ps (ls ++ x ∷ rs)
    → Fresh x fs × Fresh x ps × Fresh x (ls ++ rs)
free_list-Fresh {l} {own} {cache} ls x rs r =
    let o = All-at (λ y. own y ≡ free_list cache) ls x rs r.frees.owned in
    (
      Fresh-unowned own (full cache) x _ (λ e. differ (sym o ∙ e)) r.fulls.owned,
      Fresh-unowned own (partial cache) x _ (λ e. apart (sym o ∙ e)) r.partials.owned,
      (Distinct-without ls x rs r.frees.distinct).0,
    )
  where
    differ : free_list cache ≢ full cache
    differ = omega arith

    apart : free_list cache ≢ partial cache
    apart = omega arith

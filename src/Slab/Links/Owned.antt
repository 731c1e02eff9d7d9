-- ===== src/Slab/Links/Owned.antt =====
-- Several circular lists of src/mm/allocator.c side by side: each node is in the list of one head.
use ios.Prelude.{
  ℕ, ◌≡◌, ◌≢◌, List, [], ◌∷◌, ◌++◌, none, some, arith, ap, sym, ◌∙◌, All, All-front, All-back,
  All-append, All-at, All-without, All-map, All-both,
}
use ios.Mem.{Mem, store}
use ios.Slab.Links.{Links, list_init, list_next, list_insert, list_append, list_remove}
use ios.Slab.Links.Rings.{
  Fresh, Chain, Distinct, Chain-ext, Chain-split, Chain-prev_ne, Chain-next_ne, list_insert-next,
  list_insert-prev, list_remove-next, list_remove-prev, list_insert-Chain, list_remove-Chain,
}

-- The nodes stand in a circle behind their head, in this order; `own` gives a node's head.
pub record IsRing (l : Links) (own : Mem) (h : ℕ) (nodes : List ℕ) : Type 0 where
  pub head : own h ≡ h
  pub owned : All (λ x. own x ≡ h) nodes
  pub others : Fresh h nodes
  pub distinct : Distinct nodes
  pub chain : Chain l h nodes h

pub list_init-IsRing : (l : Links) (own : Mem) (h : ℕ) → IsRing (list_init h l) (store own h h) h []
unfolding list_init store
list_init-IsRing l own h = record {
  head = ground arith;
  owned = tt;
  others = tt;
  distinct = tt;
  chain = (ground arith, ground arith);
}

-- The first node of a circle is the one that `list_next` finds.
pub list_next-none : {l : Links} {own : Mem} {h : ℕ} → IsRing l own h [] → list_next h l ≡ none
unfolding list_next
list_next-none r = ground (arith, r.chain.0)

pub list_next-some :
    {l : Links} {own : Mem} {h x : ℕ} {xs : List ℕ}
    → IsRing l own h (x ∷ xs)
    → list_next h l ≡ some x
unfolding list_next
list_next-some r = ground (arith, r.chain.0, r.others.0)

pub Fresh-unowned :
    (own : Mem) (h a : ℕ) (nodes : List ℕ) → own a ≢ h → All (λ x. own x ≡ h) nodes → Fresh a nodes
Fresh-unowned own h a nodes ne owned =
    All-map (λ x. own x ≡ h) (λ x. x ≢ a) (λ x o e. ne (sym (ap own e) ∙ o)) nodes owned

Chain-prev_owned :
    (l : Links) (own : Mem) (h a : ℕ) (xs : List ℕ) (b : ℕ)
    → own a ≡ h
    → All (λ x. own x ≡ h) xs
    → Chain l a xs b
    → own (l.prev b) ≡ h
Chain-prev_owned l own h a [] b oa os (n, p) = ap own p ∙ oa
Chain-prev_owned l own h a (x ∷ xs) b oa (ox, os) (n, p, c) =
    Chain-prev_owned l own h x xs b ox os c

Chain-next_owned :
    (l : Links) (own : Mem) (h a : ℕ) (xs : List ℕ) (b : ℕ)
    → own b ≡ h
    → All (λ x. own x ≡ h) xs
    → Chain l a xs b
    → own (l.next a) ≡ h
Chain-next_owned l own h a [] b ob os (n, p) = ap own n ∙ ob
Chain-next_owned l own h a (x ∷ xs) b ob (ox, os) (n, p, c) = ap own n ∙ ox

Distinct-append : (xs : List ℕ) (new : ℕ) → Fresh new xs → Distinct xs → Distinct (xs ++ new ∷ [])
Distinct-append [] new fn d = (tt, tt)
Distinct-append (x ∷ xs) new (xn, fn) (fx, d) =
    (All-append (λ y. y ≢ x) xs (new ∷ []) fx ((λ e. xn (sym e)), tt), Distinct-append xs new fn d)

pub Distinct-without :
    (ls : List ℕ) (x : ℕ) (rs : List ℕ)
    → Distinct (ls ++ x ∷ rs)
    → Fresh x (ls ++ rs) × Distinct (ls ++ rs)
Distinct-without [] x rs d = d
Distinct-without (y ∷ ys) x rs (fy, d) =
    let (fx, dw) = Distinct-without ys x rs d in
    (((λ e. All-at (λ z. z ≢ y) ys x rs fy (sym e)), fx), (All-without (λ z. z ≢ y) ys x rs fy, dw))

owned-store :
    (own : Mem) (a v h : ℕ) (nodes : List ℕ)
    → Fresh a nodes
    → All (λ x. own x ≡ h) nodes
    → All (λ x. store own a v x ≡ h) nodes
unfolding store
owned-store own a v h nodes fresh owned =
    All-both (λ x. x ≢ a) (λ x. own x ≡ h) (λ x. store own a v x ≡ h) (λ x ne o. ground arith) nodes
      fresh owned

-- Appending a node of no list of the head: the list has it at its end.
pub list_append-IsRing :
    {l : Links} {own : Mem} {h : ℕ} {nodes : List ℕ} (new : ℕ)
    → IsRing l own h nodes
    → own new ≢ h
    → IsRing (list_append new h l) (store own new h) h (nodes ++ new ∷ [])
unfolding list_append
list_append-IsRing {l} {own} {h} {nodes} new r ne =
    let hn : h ≢ new = λ e. ne (sym (ap own e) ∙ r.head) in
    let fresh = Fresh-unowned own h new nodes ne r.owned in
    let pn : l.prev h ≢ new =
      λ e. ne (sym (ap own e) ∙ Chain-prev_owned l own h h nodes h r.head r.owned r.chain) in
    record {
      head = unfold store in ground (arith, r.head);
      owned =
          All-append (λ x. store own new h x ≡ h) nodes (new ∷ [])
            (owned-store own new h h nodes fresh r.owned) ((unfold store in ground arith), tt);
      others = All-append (λ x. x ≢ h) nodes (new ∷ []) r.others ((λ e. hn (sym e)), tt);
      distinct = Distinct-append nodes new fresh r.distinct;
      chain = list_insert-Chain l new h h nodes pn hn hn fresh r.others r.others r.distinct r.chain;
    }

-- Another list is as it was.
pub list_append-keeps :
    {l : Links} {own : Mem} {h g : ℕ} {nodes ms : List ℕ} (new : ℕ)
    → IsRing l own h nodes
    → own new ≢ h
    → IsRing l own g ms
    → g ≢ h
    → own new ≢ g
    → IsRing (list_append new h l) (store own new h) g ms
unfolding list_append
list_append-keeps {l} {own} {h} {g} {nodes} {ms} new r ne other gh ng =
    let fresh = Fresh-unowned own g new ms ng other.owned in
    record {
      head = unfold store in ground (arith, other.head);
      owned = owned-store own new h g ms fresh other.owned;
      others = other.others;
      distinct = other.distinct;
      chain =
          Chain-ext l (list_insert new h l) g ms g (kept g other.head).0
            (All-map (λ x. own x ≡ g)
              (λ x.
                ((list_insert new h l).next x ≡ l.next x)
                × ((list_insert new h l).prev x ≡ l.prev x))
              kept ms other.owned)
            (kept g other.head).1 other.chain;
    }
  where
    last_owned : own (l.prev h) ≡ h
    last_owned = Chain-prev_owned l own h h nodes h r.head r.owned r.chain

    kept :
        (x : ℕ)
        → own x ≡ g
        → ((list_insert new h l).next x ≡ l.next x) × ((list_insert new h l).prev x ≡ l.prev x)
    kept x o =
        let pn : l.prev h ≢ new = λ e. ne (sym (ap own e) ∙ last_owned) in
        let nx : new ≢ x = λ e. ng (ap own e ∙ o) in
        let hx : h ≢ x = λ e. gh (sym (sym r.head ∙ ap own e ∙ o)) in
        let px : l.prev h ≢ x = λ e. gh (sym (sym last_owned ∙ ap own e ∙ o)) in
        (list_insert-next new h l x pn ∙ ground arith, list_insert-prev new h l x pn ∙ ground arith)

-- Removing a node: the list is without it, and the node is its own head.
pub list_remove-IsRing :
    {l : Links} {own : Mem} {h : ℕ} (ls : List ℕ) (x : ℕ) (rs : List ℕ)
    → IsRing l own h (ls ++ x ∷ rs)
    → IsRing (list_remove x l) (store own x x) h (ls ++ rs)
list_remove-IsRing {l} {own} {h} ls x rs r =
    let (front, back) = Chain-split l h ls x rs h r.chain in
    let (fresh, distinct) = Distinct-without ls x rs r.distinct in
    let xh : x ≢ h = All-at (λ y. y ≢ h) ls x rs r.others in
    let hx : h ≢ x = λ e. xh (sym e) in
    let fh = All-without (λ y. y ≢ h) ls x rs r.others in
    record {
      head = unfold store in ground (arith, r.head);
      owned = owned-store own x x h (ls ++ rs) fresh (All-without (λ y. own y ≡ h) ls x rs r.owned);
      others = fh;
      distinct = distinct;
      chain =
          list_remove-Chain l x h h ls rs
            (Chain-prev_ne l h x ls x hx (All-front (λ y. y ≢ x) ls rs fresh) front)
            (Chain-next_ne l x x rs h hx (All-back (λ y. y ≢ x) ls rs fresh) back) hx hx fresh fh fh
            distinct front back;
    }

pub list_remove-keeps :
    {l : Links} {own : Mem} {h g : ℕ} (ls : List ℕ) (x : ℕ) (rs : List ℕ) {ms : List ℕ}
    → IsRing l own h (ls ++ x ∷ rs)
    → IsRing l own g ms
    → g ≢ h
    → IsRing (list_remove x l) (store own x x) g ms
list_remove-keeps {l} {own} {h} {g} ls x rs {ms} r other gh =
    let fresh = Fresh-unowned own g x ms (λ e. gh (sym e ∙ x_owned)) other.owned in
    record {
      head = unfold store in ground (arith, other.head, x_owned);
      owned = owned-store own x x g ms fresh other.owned;
      others = other.others;
      distinct = other.distinct;
      chain =
          Chain-ext l (list_remove x l) g ms g (kept g other.head).0
            (All-map (λ y. own y ≡ g)
              (λ y. ((list_remove x l).next y ≡ l.next y) × ((list_remove x l).prev y ≡ l.prev y))
              kept ms other.owned)
            (kept g other.head).1 other.chain;
    }
  where
    x_owned : own x ≡ h
    x_owned = All-at (λ y. own y ≡ h) ls x rs r.owned

    halves : Chain l h ls x × Chain l x rs h
    halves = Chain-split l h ls x rs h r.chain

    prev_owned : own (l.prev x) ≡ h
    prev_owned =
        Chain-prev_owned l own h h ls x r.head (All-front (λ y. own y ≡ h) ls (x ∷ rs) r.owned)
          halves.0

    next_owned : own (l.next x) ≡ h
    next_owned =
        Chain-next_owned l own h x rs h r.head (All-back (λ y. own y ≡ h) ls (x ∷ rs) r.owned).1
          halves.1

    apart : (y z : ℕ) → own y ≡ h → own z ≡ g → y ≢ z
    apart y z oy oz e = gh (sym (sym oy ∙ ap own e ∙ oz))

    hx : h ≢ x
    hx e = All-at (λ y. y ≢ h) ls x rs r.others (sym e)

    parts : Fresh x (ls ++ rs)
    parts = (Distinct-without ls x rs r.distinct).0

    kept :
        (y : ℕ)
        → own y ≡ g
        → ((list_remove x l).next y ≡ l.next y) × ((list_remove x l).prev y ≡ l.prev y)
    kept y o =
        let px = Chain-prev_ne l h x ls x hx (All-front (λ z. z ≢ x) ls rs parts) halves.0 in
        let nx = Chain-next_ne l x x rs h hx (All-back (λ z. z ≢ x) ls rs parts) halves.1 in
        let xy = apart x y x_owned o in
        let py = apart (l.prev x) y prev_owned o in
        let ny = apart (l.next x) y next_owned o in
        (list_remove-next x l y px ∙ ground arith, list_remove-prev x l y px nx ∙ ground arith)

-- A node taken from one list and appended to another.
pub list_append-list_remove :
    {l : Links} {own : Mem} {h g : ℕ} (ls : List ℕ) (x : ℕ) (rs : List ℕ) {ms : List ℕ}
    → IsRing l own h (ls ++ x ∷ rs)
    → IsRing l own g ms
    → g ≢ h
    → let l1 = list_append x g (list_remove x l) in
      let own1 = store (store own x x) x g in
      IsRing l1 own1 h (ls ++ rs)
      × IsRing l1 own1 g (ms ++ x ∷ [])
      × ((k : ℕ) (ns : List ℕ) → k ≢ h → k ≢ g → IsRing l own k ns → IsRing l1 own1 k ns)
list_append-list_remove {l} {own} {h} {g} ls x rs {ms} r other gh =
    let from = list_remove-IsRing ls x rs r in
    let to = list_remove-keeps ls x rs r other gh in
    (
      list_append-keeps x to (x_ne g other.head gh) from (λ e. gh (sym e)) (x_ne_h),
      list_append-IsRing x to (x_ne g other.head gh),
      λ k ns kh kg third.
          list_append-keeps x to (x_ne g other.head gh) (list_remove-keeps ls x rs r third kh) kg
            (x_ne k third.head kh),
    )
  where
    x_owned : own x ≡ h
    x_owned = All-at (λ y. own y ≡ h) ls x rs r.owned

    itself : store own x x x ≡ x
    itself = unfold store in ground arith

    x_ne : (k : ℕ) → own k ≡ k → k ≢ h → store own x x x ≢ k
    x_ne k ok kh e = kh (sym ok ∙ ap own (sym (sym itself ∙ e)) ∙ x_owned)

    x_ne_h : store own x x x ≢ h
    x_ne_h e = All-at (λ y. y ≢ h) ls x rs r.others (sym itself ∙ e)

-- ===== src/Slab/Links/Rings.antt =====
-- The circular lists of src/mm/allocator.c hold lists of nodes.
use ios.Prelude.{
  ℕ, ◌≡◌, ◌≢◌, List, [], ◌∷◌, ◌++◌, ◌==◌, if◌then◌else◌, arith, sym, ◌∙◌, All, All-front, All-back,
}
use ios.Mem.{store}
use ios.Slab.Links.{Links, list_insert, list_remove}

-- `a` is not among the nodes.
abbrev pub Fresh : ℕ → List ℕ → Type 0
Fresh a nodes = All (λ x. x ≢ a) nodes

-- The nodes follow each other from a to b, both ways.
abbrev pub Chain : Links → ℕ → List ℕ → ℕ → Type 0
Chain l a [] b = (l.next a ≡ b) × (l.prev b ≡ a)
Chain l a (x ∷ xs) b = (l.next a ≡ x) × (l.prev x ≡ a) × Chain l x xs b

abbrev pub Distinct : List ℕ → Type 0
Distinct [] = Unit
Distinct (x ∷ xs) = Fresh x xs × Distinct xs

pub Chain-ext :
    (l l' : Links) (a : ℕ) (xs : List ℕ) (b : ℕ)
    → l'.next a ≡ l.next a
    → All (λ x. (l'.next x ≡ l.next x) × (l'.prev x ≡ l.prev x)) xs
    → l'.prev b ≡ l.prev b
    → Chain l a xs b
    → Chain l' a xs b
Chain-ext l l' a [] b en same ep (n, p) = (en ∙ n, ep ∙ p)
Chain-ext l l' a (x ∷ xs) b en ((nx, px), same) ep (n, p, h) =
    (en ∙ n, px ∙ p, Chain-ext l l' x xs b nx same ep h)

-- What stands before the end is one of the nodes.
Chain-last_ne :
    (l : Links) (s a x : ℕ) (xs : List ℕ) (b : ℕ)
    → Fresh a (x ∷ xs)
    → Chain l s (x ∷ xs) b
    → l.prev b ≢ a
Chain-last_ne l s a x [] b (ne, fresh) (n, p, (n', p')) e = ne (sym p' ∙ e)
Chain-last_ne l s a x (y ∷ ys) b (ne, fresh) (n, p, h) e = Chain-last_ne l x a y ys b fresh h e

pub Chain-prev_ne :
    (l : Links) (s a : ℕ) (xs : List ℕ) (b : ℕ) → s ≢ a → Fresh a xs → Chain l s xs b → l.prev b ≢ a
Chain-prev_ne l s a [] b ne fresh (n, p) e = ne (sym p ∙ e)
Chain-prev_ne l s a (x ∷ xs) b ne fresh h e = Chain-last_ne l s a x xs b fresh h e

pub Chain-next_ne :
    (l : Links) (s a : ℕ) (xs : List ℕ) (b : ℕ) → b ≢ a → Fresh a xs → Chain l s xs b → l.next s ≢ a
Chain-next_ne l s a [] b ne fresh (n, p) e = ne (sym n ∙ e)
Chain-next_ne l s a (x ∷ xs) b ne (xa, fresh) (n, p, h) e = xa (sym n ∙ e)

-- The links after `list_insert` before a node that is not the new one, when what stands before that
-- node is not the new one either.
pub list_insert-next :
    (new link : ℕ) (l : Links) (x : ℕ)
    → l.prev link ≢ new
    → (list_insert new link l).next x
      ≡ (if l.prev link == x then new else if new == x then link else l.next x)
unfolding list_insert store
list_insert-next new link l x ne = ground arith

pub list_insert-prev :
    (new link : ℕ) (l : Links) (x : ℕ)
    → l.prev link ≢ new
    → (list_insert new link l).prev x
      ≡ (if link == x then new else if new == x then l.prev link else l.prev x)
unfolding list_insert store
list_insert-prev new link l x ne = ground arith

pub list_remove-next :
    (a : ℕ) (l : Links) (x : ℕ)
    → l.prev a ≢ a
    → (list_remove a l).next x
      ≡ (if a == x then a else if l.prev a == x then l.next a else l.next x)
unfolding list_remove store
list_remove-next a l x ne = ground arith

pub list_remove-prev :
    (a : ℕ) (l : Links) (x : ℕ)
    → l.prev a ≢ a
    → l.next a ≢ a
    → (list_remove a l).prev x
      ≡ (if a == x then a else if l.next a == x then l.prev a else l.prev x)
unfolding list_remove store
list_remove-prev a l x ne nn = ground arith

pub list_insert-Chain :
    (l : Links) (new h a : ℕ) (xs : List ℕ)
    → l.prev h ≢ new
    → h ≢ new
    → a ≢ new
    → Fresh new xs
    → Fresh h xs
    → Fresh a xs
    → Distinct xs
    → Chain l a xs h
    → Chain (list_insert new h l) a (xs ++ new ∷ []) h
list_insert-Chain l new h a [] pn hn an fn fh fa d (n, p) = (
  list_insert-next new h l a pn ∙ ground arith,
  list_insert-prev new h l new pn ∙ ground arith,
  (list_insert-next new h l new pn ∙ ground arith, list_insert-prev new h l h pn ∙ ground arith),
)
list_insert-Chain l new h a (x ∷ xs) pn hn an (xn, fn) (xh, fh) (xa, fa) (fx, d) (n, p, c) = (
  list_insert-next new h l a pn ∙ ground (arith, Chain-last_ne l a a x xs h (xa, fa) (n, p, c)),
  list_insert-prev new h l x pn ∙ ground arith,
  list_insert-Chain l new h x xs pn hn xn fn fh fx d c,
)

pub Chain-split :
    (l : Links) (a : ℕ) (ls : List ℕ) (x : ℕ) (rs : List ℕ) (b : ℕ)
    → Chain l a (ls ++ x ∷ rs) b
    → Chain l a ls x × Chain l x rs b
Chain-split l a [] x rs b (n, p, c) = ((n, p), c)
Chain-split l a (y ∷ ys) x rs b (n, p, c) =
    let (front, back) = Chain-split l y ys x rs b c in ((n, p, front), back)

-- Nodes away from the removed one and its neighbours.
list_remove-Chain_after :
    (l : Links) (x a y : ℕ) (ys : List ℕ) (h : ℕ)
    → l.prev x ≡ a
    → l.next x ≡ y
    → x ≢ a
    → x ≢ y
    → h ≢ x
    → h ≢ y
    → Fresh x (y ∷ ys)
    → Fresh a (y ∷ ys)
    → Fresh y ys
    → Chain l y ys h
    → Chain (list_remove x l) y ys h
list_remove-Chain_after l x a y ys h pa ny xa xy hx hy (yx, fx) (ya, fa) fy c =
    Chain-ext l (list_remove x l) y ys h (same_next y yx ya) (each ys fx fa fy) (same_prev h hx hy)
      c
  where
    same_next : (z : ℕ) → z ≢ x → z ≢ a → (list_remove x l).next z ≡ l.next z
    same_next z zx za = list_remove-next x l z (λ e. xa (sym e ∙ pa)) ∙ ground arith

    same_prev : (z : ℕ) → z ≢ x → z ≢ y → (list_remove x l).prev z ≡ l.prev z
    same_prev z zx zy =
        list_remove-prev x l z (λ e. xa (sym e ∙ pa)) (λ e. xy (sym e ∙ ny)) ∙ ground arith

    each :
        (zs : List ℕ)
        → Fresh x zs
        → Fresh a zs
        → Fresh y zs
        → All
            (λ z. ((list_remove x l).next z ≡ l.next z) × ((list_remove x l).prev z ≡ l.prev z))
            zs
    each [] fx fa fy = tt
    each (z ∷ zs) (zx, fx) (za, fa) (zy, fy) =
        ((same_next z zx za, same_prev z zx zy), each zs fx fa fy)

pub list_remove-Chain :
    (l : Links) (x h a : ℕ) (ls rs : List ℕ)
    → l.prev x ≢ x
    → l.next x ≢ x
    → h ≢ x
    → a ≢ x
    → Fresh x (ls ++ rs)
    → Fresh h (ls ++ rs)
    → Fresh a (ls ++ rs)
    → Distinct (ls ++ rs)
    → Chain l a ls x
    → Chain l x rs h
    → Chain (list_remove x l) a (ls ++ rs) h
list_remove-Chain l x h a [] [] px nx hx ax fx fh fa d (n, p) (n', p') =
    (list_remove-next x l a px ∙ ground arith, list_remove-prev x l h px nx ∙ ground arith)
list_remove-Chain l x h a [] (y ∷ ys) px nx hx ax fx fh fa d (n, p) (n', p', c) = (
  list_remove-next x l a px ∙ ground arith,
  list_remove-prev x l y px nx ∙ ground (arith, fx.0),
  list_remove-Chain_after l x a y ys h p n' (λ e. ax (sym e)) (λ e. fx.0 (sym e)) hx
      (λ e. fh.0 (sym e)) fx fa d.0 c,
)
list_remove-Chain l x h a (z ∷ zs) rs px nx hx ax (zx, fx) (zh, fh) (za, fa) (fz, d) (n, p, c)
      after =
    let before_ne = Chain-last_ne l a a z zs x (za, All-front (λ y. y ≢ a) zs rs fa) (n, p, c) in
    let after_ne =
      Chain-next_ne l x z rs h (λ e. zh (sym e)) (All-back (λ y. y ≢ z) zs rs fz) after in
    (
      list_remove-next x l a px ∙ ground arith,
      list_remove-prev x l z px nx ∙ ground arith,
      list_remove-Chain l x h z zs rs px nx hx zx fx fh fz d c after,
    )

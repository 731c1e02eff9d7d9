-- ===== src/Slab/Free.antt =====
-- The free objects of a slab in src/mm/allocator.c: no two alike, none of them handed out.
use ios.Prelude.{
  ℕ, ◌+◌, ◌-◌, ◌*◌, ◌/◌, ◌%◌, ◌<◌, ◌≤◌, ◌≡◌, ◌≢◌, Option, some, ltb, leb, ◌&&◌, ◌⊎◌, inl, inr,
  arith, refl, true, ap, ◌∙◌, sym, ne→==_false, u64, ◌^◌,
}
use mathlib.Core.Path.{subst}
use native.Mathlib.Decide.{ℕ_discrete}
use native.Mathlib.Nat.{mul-div_cancel_left, mul-mod_right}
use ios.Mem.{store}
use ios.Slab.{
  alloc_alignment, align_up, slab_size, CacheShape, Slab, cache_shape, slab_mem, new_slab,
  take_object, slab_ptr_to_index, give_object,
}
use ios.Slab.Sizes.{slab_bytes, slab_mem-exact}

-- Object i of a slab.
abbrev pub object : CacheShape → Slab → ℕ → ℕ
object c s i = s.memory + c.objsize * i

-- Object i is free.
abbrev pub IsFree : CacheShape → Slab → ℕ → Type 0
IsFree c s i = (k : ℕ) × (s.free ≤ k) × (k < c.objs_per_slab) × (s.bufctl k ≡ i)

-- The numbers of free objects are numbers of objects, each once.
pub record IsSlab (c : CacheShape) (s : Slab) : Type 0 where
  pub some_size : 1 ≤ c.objsize
  pub bound : s.free ≤ c.objs_per_slab
  pub in_slab : (k : ℕ) → s.free ≤ k → k < c.objs_per_slab → s.bufctl k < c.objs_per_slab
  pub distinct : (k l : ℕ) → s.free ≤ k → k < l → l < c.objs_per_slab → s.bufctl k ≢ s.bufctl l

pub new_slab-IsSlab : (c : CacheShape) (addr : ℕ) → 1 ≤ c.objsize → IsSlab c (new_slab c addr)
unfolding new_slab
new_slab-IsSlab c addr positive = record {
  some_size = positive;
  bound = omega arith;
  in_slab = λ k lo hi. hi;
  distinct = λ k l lo lt hi. omega (arith, lt);
}

-- A slab before and after object i is taken from it.
pub record Taken (c : CacheShape) (s : Slab) (i : ℕ) (r : ℕ × Slab) : Type 0 where
  pub slab : IsSlab c r.1
  pub pointer : r.0 ≡ object c s i
  pub was_free : IsFree c s i
  pub not_free : ¬ IsFree c r.1 i
  pub others : (j : ℕ) → j ≢ i → IsFree c s j → IsFree c r.1 j

-- Taking an object from a well-formed slab that has one: the slab stays well formed, the pointer is
-- that of an object that was free and is free no longer, and the other free objects are still free.
pub take_object-Taken :
    (c : CacheShape) (s : Slab)
    → IsSlab c s
    → s.free < c.objs_per_slab
    → Taken c s (s.bufctl s.free) (take_object c s)
unfolding take_object
take_object-Taken c s ok room = record {
  slab = record {
    some_size = ok.some_size;
    bound = omega arith;
    in_slab = λ k lo hi. ok.in_slab k (omega arith) hi;
    distinct = λ k l lo lt hi. ok.distinct k l (omega arith) lt hi;
  };
  pointer = refl;
  was_free = (s.free, omega arith, room, refl);
  not_free = λ (k, lo, hi, e). ok.distinct s.free k (omega arith) (omega arith) hi (sym e);
  others = λ j ne (k, lo, hi, e). (k, later k (λ at. ne (sym e ∙ ap s.bufctl at)) lo, hi, e);
}
  where
    later : (k : ℕ) → k ≢ s.free → s.free ≤ k → s.free + 1 ≤ k
    later k ne lo = omega arith

-- A slab before and after object i is given back to it.
pub record Given (c : CacheShape) (s : Slab) (i : ℕ) (r : Option Slab) : Type 0 where
  pub after : Slab
  pub result : r ≡ some after
  pub slab : IsSlab c after
  pub memory : after.memory ≡ s.memory
  pub one_more : after.free + 1 ≡ s.free
  pub is_free : IsFree c after i
  pub others : (j : ℕ) → IsFree c s j → IsFree c after j
  pub only : (j : ℕ) → IsFree c after j → (j ≡ i) ⊎ IsFree c s j

slab_ptr_to_index-object :
    (c : CacheShape) (s : Slab) (i : ℕ) → 1 ≤ c.objsize → slab_ptr_to_index c s (object c s i) ≡ i
unfolding slab_ptr_to_index
slab_ptr_to_index-object c s i positive =
    let offset : s.memory + c.objsize * i - s.memory ≡ c.objsize * i = omega arith in
    rw offset (mul-div_cancel_left i positive)

object-inside :
    (c : CacheShape) (s : Slab) (i : ℕ)
    → 1 ≤ c.objsize
    → i < c.objs_per_slab
    → (leb s.memory (object c s i) && ltb (object c s i) (s.memory + c.objsize * c.objs_per_slab))
      ≡ true
object-inside c s i positive lt =
    let end_of : c.objsize * i < c.objsize * c.objs_per_slab = grind arith in ground arith

-- Giving back an object that is not free: the slab stays well formed with one object more, the object
-- is free, and the other free objects are still free.
pub give_object-Given :
    (c : CacheShape) (s : Slab) (i : ℕ)
    → IsSlab c s
    → i < c.objs_per_slab
    → ¬ IsFree c s i
    → 1 ≤ s.free
    → Given c s i (give_object c s (object c s i))
unfolding give_object store
give_object-Given c s i ok lt taken handed_out =
    rw
      (
        object-inside c s i ok.some_size lt,
        ne→==_false s.free 0 (omega arith),
        slab_ptr_to_index-object c s i ok.some_size,
      )
      record {
        after = given;
        result = refl;
        slab = record {
          some_size = ok.some_size;
          bound = omega (arith, ok.bound);
          in_slab = λ k lo hi. ground (arith, ok.in_slab k);
          distinct = given_distinct;
        };
        memory = refl;
        one_more = omega arith;
        is_free = (s.free - 1, omega arith, omega (arith, ok.bound), ground arith);
        others = λ j (k, lo, hi, e). (k, omega arith, hi, ground arith);
        only = λ j (k, lo, hi, e). elim (ℕ_discrete k (s.free - 1)) [
          | yes at ↦ inl (ground arith)
          | no off ↦ inr (k, omega arith, hi, ground arith)
        ];
      }
  where
    given_distinct :
        (k l : ℕ)
        → s.free - 1 ≤ k
        → k < l
        → l < c.objs_per_slab
        → store s.bufctl (s.free - 1) i k ≢ store s.bufctl (s.free - 1) i l
    given_distinct k l lo less hi e = elim (ℕ_discrete k (s.free - 1)) [
      | yes at ↦ taken (l, omega arith, hi, ground arith)
      | no off ↦ ok.distinct k l (omega arith) less hi (ground arith)
    ]

    given : Slab
    given = record s { free = s.free - 1; bufctl = store s.bufctl (s.free - 1) i }

-- Of a well-formed slab that has a free object: the object that is taken can be given back, the slab
-- is then well formed with as many free objects, and every object that was free is free again.
pub give_object-take_object :
    (c : CacheShape) (s : Slab)
    → IsSlab c s
    → s.free < c.objs_per_slab
    → let (p, taken) = take_object c s in
      (after : Slab) × (give_object c taken p ≡ some after)
      × IsSlab c after
      × (after.free ≡ s.free)
      × ((j : ℕ) → IsFree c s j → IsFree c after j)
give_object-take_object c s ok room =
    let t = take_object-Taken c s ok room in
    let i = s.bufctl s.free in
    let g =
      give_object-Given c (take_object c s).1 i t.slab (ok.in_slab s.free (omega arith) room)
        t.not_free (unfold take_object in omega arith) in
    (
      g.after,
      (unfold take_object in g.result),
      g.slab,
      (unfold take_object in omega (arith, g.one_more)),
      λ j free. back j free (ℕ_discrete j i) t g,
    )
  where
    back :
        (j : ℕ)
        → IsFree c s j
        → Dec (j ≡ s.bufctl s.free)
        → Taken c s (s.bufctl s.free) (take_object c s)
        → (g : Given c
            (take_object c s).1
            (s.bufctl s.free)
            (give_object c (take_object c s).1 (object c (take_object c s).1 (s.bufctl s.free))))
        → IsFree c g.after j
    back j free (yes same) t g = subst (λ k. IsFree c g.after k) (sym same) g.is_free
    back j free (no other) t g = g.others j (t.others j other free)

pub object-aligned : (size i : ℕ) → align_up size * i % alloc_alignment ≡ 0
object-aligned size i =
    let q = u64 (size + (alloc_alignment - 1)) / alloc_alignment in
    let multiple : align_up size * i ≡ alloc_alignment * (q * i) = grind arith in
    rw multiple (mul-mod_right alloc_alignment (q * i))

object-fits :
    (c : CacheShape) (addr i : ℕ)
    → addr + slab_bytes c < 2 ^ 64
    → c.objsize * i % alloc_alignment ≡ 0
    → i < c.objs_per_slab
    → (addr + slab_size + c.objs_per_slab * 4 ≤ object c (new_slab c addr) i)
      × (object c (new_slab c addr) i + c.objsize ≤ addr + slab_mem c)
      × (object c (new_slab c addr) i % alloc_alignment ≡ 0)
unfolding new_slab slab_bytes
object-fits c addr i room multiple less =
    let last : c.objsize * i + c.objsize ≤ c.objs_per_slab * c.objsize = grind arith in
    let asked = slab_mem-exact c (omega (arith, room)) in
    (omega arith, omega (arith, last, asked), omega (arith, multiple))

-- For an object size at most 2 ^ 64 - 16, and an address at which the bytes of a slab, their sum not
-- wrapped, end below 2 ^ 64: the objects of a new slab of the cache are at least of that size, lie behind
-- the numbers of the slab's objects and within the bytes that the cache asks for, and start at
-- multiples of the alignment.
pub new_slab-fits :
    (objsize addr i : ℕ)
    → objsize + alloc_alignment ≤ 2 ^ 64
    → addr + slab_bytes (cache_shape objsize) < 2 ^ 64
    → i < (cache_shape objsize).objs_per_slab
    → let c = cache_shape objsize in
      (objsize ≤ c.objsize)
      × (addr + slab_size + c.objs_per_slab * 4 ≤ object c (new_slab c addr) i)
      × (object c (new_slab c addr) i + c.objsize ≤ addr + slab_mem c)
      × (object c (new_slab c addr) i % alloc_alignment ≡ 0)
new_slab-fits objsize addr i small room lt =
    let multiple : (cache_shape objsize).objsize * i % alloc_alignment ≡ 0 =
      (unfold cache_shape in object-aligned objsize i) in
    let (behind, within, aligned) = object-fits (cache_shape objsize) addr i room multiple lt in
    (unfold cache_shape in omega arith, behind, within, aligned)

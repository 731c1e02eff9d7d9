-- ===== src/Shell/Line/Keys.antt =====
-- The keys of `shell_readline` in src/fs/shell.c that move the cursor or change the line, against the
-- same keys on the two lists around the cursor.
use ios.Prelude.{
  ℕ, suc, ◌+◌, ◌-◌, ◌<◌, ◌≤◌, ◌≡◌, ◌≢◌, List, [], ◌∷◌, leb, ltb, ne→==_false, arith, refl,
  Bool-cases, inl, inr, ==_iff, lt→ltb, false,
}
use mathlib.Core.Path.{subst, subst₂}
use ios.Mem.{Mem, store}
use ios.Mem.Segments.{
  Before, After, Before-length, After-length, Before-ext, Before-next, Before-push, After-previous,
  Before-onto, After-onto, After-moved,
}
use ios.Shell.Line.{
  Editor, close_gap, open_gap, press_backspace, press_del, press_left, press_right, press_home,
  press_end, type_char,
}
use ios.Shell.Line.Gap.{close_gap-at, open_gap-at}
use ios.Shell.Line.Zipper.{
  Zipper, zipper, line_length, backspace, delete, go_left, go_right, go_home, go_end, insert,
}

-- The bytes of `e.buf` are the characters of `z`, split at the cursor, within `last` bytes; the rest of
-- the object `buf0` is left alone. `total` lines have been read.
pub record Shows (last total : ℕ) (buf0 : Mem) (e : Editor) (z : Zipper) : Type 0 where
  pub before : Before z.before e.buf e.cur
  pub after : After z.after e.buf e.cur e.len
  pub room : e.len ≤ last
  pub place : e.browse + z.back ≡ total
  pub own : z.back ≢ 0 → After z.own e.saved 0 e.saved_len
  pub beyond : (j : ℕ) → last < j → e.buf j ≡ buf0 j

same→ltb_false : (a b : ℕ) → a ≡ b → ltb a b ≡ false
same→ltb_false a b h = ground arith

-- Closing the gap at `cur`, before a run that starts behind it.
close_gap-After :
    (r : List ℕ) (m : Mem) (cur len : ℕ)
    → cur < len
    → After r m (cur + 1) len
    → After r (close_gap (len - 1 - cur) cur m) cur (len - 1)
close_gap-After r m cur len lt after = moved
  where
    m' : Mem
    m' = close_gap (len - 1 - cur) cur m

    end : len ≡ len - 1 + 1
    end = omega arith

    same : (k : ℕ) → cur ≤ k → k < len - 1 → m' (k + 0) ≡ m (k + 1)
    same k lo hi = ground (arith, close_gap-at (len - 1 - cur) cur m (k + 0))

    moved : After r m' cur (len - 1)
    moved =
        subst₂ (λ i j. After r m' i j) (omega arith) (omega arith)
          (After-moved r m m' cur (len - 1) 1 0 same (subst (λ j. After r m (cur + 1) j) end after))

open_gap-After :
    (r : List ℕ) (m : Mem) (ch cur len : ℕ)
    → cur ≤ len
    → After r m cur len
    → After r (store (open_gap (len - cur) cur m) cur ch) (cur + 1) (len + 1)
unfolding store
open_gap-After r m ch cur len le after =
    After-moved r m (store (open_gap (len - cur) cur m) cur ch) cur len 0 1
      (λ k lo hi. ground (arith, open_gap-at (len - cur) cur m (k + 1)))
      (subst₂ (λ i j. After r m i j) (omega arith) (omega arith) after)

module _ (last total : ℕ) (buf0 : Mem) where
  pub line_length-len :
      (e : Editor) (z : Zipper) → Shows last total buf0 e z → line_length z ≡ e.len
  line_length-len e z s = omega (
    arith,
    Before-length z.before e.buf e.cur s.before,
    After-length z.after e.buf e.cur e.len s.after,
  )

  pub press_left-Shows :
      (e : Editor) (l r : List ℕ) (k : ℕ) (own : List ℕ)
      → Shows last total buf0 e (zipper l r k own)
      → Shows last total buf0 (press_left e) (go_left (zipper l r k own))
  unfolding press_left
  press_left-Shows e [] r k own s = rw ((==_iff e.cur 0).1 s.before) s
  press_left-Shows e (c ∷ cs) r k own s =
      rw (ne→==_false e.cur 0 (omega (arith, s.before.0))) record {
        before = s.before.2;
        after = After-previous c cs r e.buf e.cur e.len s.before s.after;
        room = s.room;
        place = s.place;
        own = s.own;
        beyond = s.beyond;
      }

  pub press_right-Shows :
      (e : Editor) (l r : List ℕ) (k : ℕ) (own : List ℕ)
      → Shows last total buf0 e (zipper l r k own)
      → Shows last total buf0 (press_right e) (go_right (zipper l r k own))
  unfolding press_right
  press_right-Shows e l [] k own s = rw (same→ltb_false e.cur e.len s.after) s
  press_right-Shows e l (c ∷ cs) k own s = rw (lt→ltb e.cur e.len s.after.0) record {
    before = Before-next l e.buf e.cur c s.after.1 s.before;
    after = s.after.2;
    room = s.room;
    place = s.place;
    own = s.own;
    beyond = s.beyond;
  }

  pub press_home-Shows :
      (e : Editor) (z : Zipper)
      → Shows last total buf0 e z
      → Shows last total buf0 (press_home e) (go_home z)
  unfolding press_home
  press_home-Shows e z s = record {
    before = refl;
    after = After-onto z.before z.after e.buf e.cur e.len s.before s.after;
    room = s.room;
    place = s.place;
    own = s.own;
    beyond = s.beyond;
  }

  pub press_end-Shows :
      (e : Editor) (z : Zipper)
      → Shows last total buf0 e z
      → Shows last total buf0 (press_end e) (go_end z)
  unfolding press_end
  press_end-Shows e z s = record {
    before = Before-onto z.after z.before e.buf e.cur e.len s.before s.after;
    after = refl;
    room = s.room;
    place = s.place;
    own = s.own;
    beyond = s.beyond;
  }

  pub press_backspace-Shows :
      (e : Editor) (l r : List ℕ) (k : ℕ) (own : List ℕ)
      → Shows last total buf0 e (zipper l r k own)
      → Shows last total buf0 (press_backspace e) (backspace (zipper l r k own))
  unfolding press_backspace
  press_backspace-Shows e [] r k own s = rw ((==_iff _ _).1 s.before) s
  press_backspace-Shows e (c ∷ cs) r k own s =
      let some_before = s.before.0 in
      let ordered = After-length r e.buf e.cur e.len s.after in
      rw (ne→==_false e.cur 0 (omega arith)) record {
        before =
            Before-ext cs e.buf _ (e.cur - 1)
              (λ j lt. ground (arith, close_gap-at (e.len - 1 - (e.cur - 1)) (e.cur - 1) e.buf j))
              s.before.2;
        after =
            close_gap-After r e.buf (e.cur - 1) e.len (omega arith)
              (subst (λ i. After r e.buf i e.len) (omega arith) s.after);
        room = omega (arith, s.room);
        place = s.place;
        own = s.own;
        beyond = λ j far.
            ground (arith, s.beyond j, close_gap-at (e.len - 1 - (e.cur - 1)) (e.cur - 1) e.buf j);
      }

  pub press_del-Shows :
      (e : Editor) (l r : List ℕ) (k : ℕ) (own : List ℕ)
      → Shows last total buf0 e (zipper l r k own)
      → Shows last total buf0 (press_del e) (delete (zipper l r k own))
  unfolding press_del
  press_del-Shows e l [] k own s = rw (same→ltb_false e.cur e.len s.after) s
  press_del-Shows e l (c ∷ cs) k own s = rw (lt→ltb e.cur e.len s.after.0) record {
    before =
        Before-ext l e.buf _ e.cur
          (λ j lt. ground (arith, close_gap-at (e.len - 1 - e.cur) e.cur e.buf j)) s.before;
    after = close_gap-After cs e.buf e.cur e.len s.after.0 s.after.2;
    room = omega (arith, s.room);
    place = s.place;
    own = s.own;
    beyond =
        λ j far. ground (arith, s.beyond j, s.room, close_gap-at (e.len - 1 - e.cur) e.cur e.buf j);
  }

  pub type_char-Shows :
      (e : Editor) (l r : List ℕ) (k : ℕ) (own : List ℕ) (ch : ℕ)
      → Shows last total buf0 e (zipper l r k own)
      → Shows last total buf0 (type_char (suc last) ch e) (insert last ch (zipper l r k own))
  unfolding type_char store
  type_char-Shows e l r k own ch s =
      let size : suc last - 1 ≡ last = omega arith in
      let ordered = After-length r e.buf e.cur e.len s.after in
      rw (size, line_length-len e (zipper l r k own) s)
        (elim (Bool-cases (leb last e.len)) [
          | inl full ↦ rw full s
          | inr free ↦ rw free record {
            before = Before-push l (open_gap (e.len - e.cur) e.cur e.buf) e.cur ch (
                Before-ext l e.buf _ e.cur
                  (λ j lt. ground (arith, open_gap-at (e.len - e.cur) e.cur e.buf j)) s.before);
            after = open_gap-After r e.buf ch e.cur e.len (omega arith) s.after;
            room = ground (arith, s.room);
            place = s.place;
            own = s.own;
            beyond = λ j far. ground (arith, s.beyond j, open_gap-at (e.len - e.cur) e.cur e.buf j);
          }
        ])

-- ===== src/Shell/Commands/Paths.antt =====
-- `cd` of src/fs/shell.c: the stack of directories.
use ios.Prelude.{
  if-holds, ℕ, ◌+◌, ◌-◌, ◌≤◌, ◌≡◌, ◌≢◌, ne→==_false, ==_iff, true, false, ◌<◌, ltb→lt, ◌&&◌, List,
  [], ◌∷◌, Option, none, some, ltb, lt→ltb, ℤ, arith, refl, sym, ap, ◌∙◌, Bool, if◌then◌else◌, pos,
  Bool-cases, inl, inr,
}
use native.Mathlib.Decide.{ℕ_discrete}
use ios.Mem.{Mem}
use ios.Text.{strcmp}
use ios.Shell.Entries.{ShellEntry, sfs_lookup}
use ios.Shell.Dispatch.{is_help, same_text}
use ios.Shell.Commands.{Place, path_size, path_set, go_to, push_entry, enter, shell_cmd_cd}

-- The stack lies in its array, the current directory is the root or the top of the stack, and the stack
-- holds directories.
pub record IsPlace (root : ShellEntry) (p : Place) : Type 0 where
  pub in_array : p.path_top < path_size
  pub at_root : p.path_top ≡ 0 → p.current ≡ root
  pub on_top : 1 ≤ p.path_top → p.current ≡ p.path p.path_top
  pub directories : (k : ℕ) → 1 ≤ k → k ≤ p.path_top → (p.path k).is_directory ≡ true

-- What `cd` comes to: such a place, or, on a full stack, a write behind the array.
abbrev pub PlaceResult : ShellEntry → Place → Option (ℤ × Place) → Type 0
PlaceResult root p none = p.path_top + 1 ≡ path_size
PlaceResult root p (some (status, there)) = IsPlace root there

not_below : (a b : ℕ) → ltb a b ≡ false → b ≤ a
not_below a b e = ground arith

path_set-below :
    (path : ℕ → ShellEntry) (k i : ℕ) (e : ShellEntry) → i ≢ k → path_set path k e i ≡ path i
path_set-below path k i e ne = rw (ne→==_false i k ne) refl

path_set-at : (path : ℕ → ShellEntry) (k : ℕ) (e : ShellEntry) → path_set path k e k ≡ e
path_set-at path k e = rw ((==_iff k k).1 refl) refl

if_known :
    {A : Type 0} {x y : A} (P : A → Type 0) (b : Bool)
    → (b ≡ true → P x)
    → P y
    → P (if b then x else y)
if_known P true f h = f refl
if_known P false f h = h

module _ (root : ShellEntry) (p : Place) (place : IsPlace root p) where
  rooted : ℕ → ShellEntry
  rooted = path_set p.path 0 root

  rooted-IsPlace : IsPlace root (record p { path = rooted })
  unfolding rooted
  rooted-IsPlace = record {
    in_array = place.in_array;
    at_root = place.at_root;
    on_top = λ up. place.on_top up ∙ sym (path_set-below p.path 0 p.path_top root (omega arith));
    directories =
        λ k lo hi. rw (path_set-below p.path 0 k root (omega arith)) (place.directories k lo hi);
  }

  go_to-IsPlace : (top : ℕ) → top ≤ p.path_top → IsPlace root (go_to rooted top).1
  unfolding rooted
  go_to-IsPlace top le = record {
    in_array = omega (arith, place.in_array);
    at_root = λ z. ap rooted z ∙ path_set-at p.path 0 root;
    on_top = λ up. refl;
    directories = λ k lo hi. rooted-IsPlace.directories k lo (omega arith);
  }

  entered :
      (entry : ShellEntry)
      → entry.is_directory ≡ true
      → (k : ℕ) → 1 ≤ k
      → k ≤ p.path_top + 1
      → (path_set rooted (p.path_top + 1) entry k).is_directory ≡ true
  entered entry dir k lo hi = elim (ℕ_discrete k (p.path_top + 1)) [
    | yes at ↦ rw (at, path_set-at rooted (p.path_top + 1) entry) dir
    | no below ↦
        rw (path_set-below rooted (p.path_top + 1) k entry below)
          (rooted-IsPlace.directories k lo (omega arith))
  ]

  push_entry-PlaceResult :
      (entry : ShellEntry)
      → entry.is_directory ≡ true
      → PlaceResult root p (push_entry rooted p.path_top entry)
  push_entry-PlaceResult entry dir = elim (Bool-cases (ltb (p.path_top + 1) path_size)) [
    | inl room ↦ rw room record {
      in_array = ltb→lt (p.path_top + 1) path_size room;
      at_root = λ z. absurd (omega (arith, z));
      on_top = λ up. refl;
      directories = λ k lo hi. entered entry dir k lo hi;
    }
    | inr no_room ↦
        rw no_room (omega (arith, place.in_array, not_below (p.path_top + 1) path_size no_room))
  ]

  enter-PlaceResult : (o : Option ShellEntry) → PlaceResult root p (enter rooted p o)
  enter-PlaceResult none = rooted-IsPlace
  enter-PlaceResult (some entry) =
      if_known (PlaceResult root p) entry.is_directory (push_entry-PlaceResult entry) rooted-IsPlace

-- From a place that `cd` leaves, and whatever the arguments: either `cd` leaves such a place again, the
-- stack in its array, the current directory the root or the top of the stack, and directories only on
-- the stack; or it writes behind the array, and then the stack was full.
pub shell_cmd_cd-PlaceResult :
    (storage stale : Mem) (root : ShellEntry) (p : Place) (argv : List (List ℕ))
    → IsPlace root p
    → PlaceResult root p (shell_cmd_cd storage stale root p argv)
unfolding shell_cmd_cd
shell_cmd_cd-PlaceResult storage stale root p [] place = place
shell_cmd_cd-PlaceResult storage stale root p (w ∷ []) place =
    unfold rooted in go_to-IsPlace root p place 0 (omega arith)
shell_cmd_cd-PlaceResult storage stale root p (w ∷ name ∷ []) place =
    let P = λ (r : Option (ℤ × Place)). PlaceResult root p r in
    if-holds P (is_help (w ∷ name ∷ [])) place (
      if-holds P (same_text name (b'.' ∷ [])) (unfold rooted in rooted-IsPlace root p place) (
        if-holds P (same_text name (b'.' ∷ b'.' ∷ []) && ltb 0 p.path_top)
          (unfold rooted in go_to-IsPlace root p place (p.path_top - 1) (omega arith))
          (unfold rooted in
            enter-PlaceResult root p place (sfs_lookup storage stale p.current name))))
shell_cmd_cd-PlaceResult storage stale root p (w ∷ name ∷ v ∷ ws) place =
    unfold rooted in rooted-IsPlace root p place

-- What holds of the place that a call leaves, if it leaves one.
abbrev IfLeaves : (Place → Type 0) → Option (ℤ × Place) → Type 0
IfLeaves P none = Unit
IfLeaves P (some r) = P r.1

leaves :
    (P : Place → Type 0) (o : Option (ℤ × Place)) (r : ℤ × Place)
    → o ≡ some r
    → IfLeaves P o
    → P r.1
leaves P o r e h = (rw e at h)

-- The stack below its top stays.
path-kept :
    (storage stale : Mem) (root : ShellEntry) (p : Place) (w name : List ℕ) (k : ℕ)
    → 1 ≤ k
    → k ≤ p.path_top
    → IfLeaves
        (λ there. there.path k ≡ p.path k)
        (shell_cmd_cd storage stale root p (w ∷ name ∷ []))
unfolding shell_cmd_cd
path-kept storage stale root p w name k lo hi =
    let P = IfLeaves (λ there. there.path k ≡ p.path k) in
    let kept = path_set-below p.path 0 k root (omega arith) in
    if-holds P (is_help (w ∷ name ∷ [])) refl (
      if-holds P (same_text name (b'.' ∷ [])) kept (
        if-holds P (same_text name (b'.' ∷ b'.' ∷ []) && ltb 0 p.path_top) kept
          (entered_kept (sfs_lookup storage stale p.current name))))
  where
    entered_kept :
        (o : Option ShellEntry)
        → IfLeaves (λ there. there.path k ≡ p.path k) (enter (path_set p.path 0 root) p o)
    entered_kept none = path_set-below p.path 0 k root (omega arith)
    entered_kept (some entry) =
        let P = IfLeaves (λ there. there.path k ≡ p.path k) in
        if-holds P entry.is_directory
          (if-holds P (ltb (p.path_top + 1) path_size)
            (path_set-below (path_set p.path 0 root) (p.path_top + 1) k entry (omega arith)
              ∙ path_set-below p.path 0 k root (omega arith))
            tt)
          (path_set-below p.path 0 k root (omega arith))

cd_up :
    (storage stale : Mem) (root : ShellEntry) (q : Place) (v : List ℕ)
    → 1 ≤ q.path_top
    → shell_cmd_cd storage stale root q (v ∷ (b'.' ∷ b'.' ∷ []) ∷ [])
      ≡ some (go_to (path_set q.path 0 root) (q.path_top - 1))
unfolding shell_cmd_cd is_help strcmp
cd_up storage stale root q v up = rw (lt→ltb 0 q.path_top up) refl

-- From a place that `cd` leaves: `cd name`, when it leaves a place one level down, and then `cd ..`, which
-- writes in the array, is back at the same directory and level.
pub shell_cmd_cd_back :
    (storage stale : Mem) (root : ShellEntry) (p : Place) (w name v : List ℕ) (status : ℤ)
    (there : Place)
    → IsPlace root p
    → shell_cmd_cd storage stale root p (w ∷ name ∷ []) ≡ some (status, there)
    → there.path_top ≡ p.path_top + 1
    → (back : Place) × (shell_cmd_cd storage stale root there (v ∷ (b'.' ∷ b'.' ∷ []) ∷ [])
        ≡ some (pos 0, back))
      × (back.path_top ≡ p.path_top)
      × (back.current ≡ p.current)
shell_cmd_cd_back storage stale root p w name v status there place went down =
    let level : there.path_top - 1 ≡ p.path_top = omega (arith, down) in
    let path = path_set there.path 0 root in
    (
      (go_to path p.path_top).1,
      cd_up storage stale root there v (omega (arith, down)) ∙ ap (λ k. some (go_to path k)) level,
      refl,
      elim (ℕ_discrete p.path_top 0) [
        | yes z ↦ rw ((==_iff p.path_top 0).1 z) (sym (place.at_root z))
        | no nz ↦ rw (ne→==_false p.path_top 0 nz) (
            leaves (λ q. q.path p.path_top ≡ p.path p.path_top)
              (shell_cmd_cd storage stale root p (w ∷ name ∷ [])) (status, there) went
              (path-kept storage stale root p w name p.path_top (omega arith) (omega arith))
            ∙ sym (place.on_top (omega arith)))
      ],
    )

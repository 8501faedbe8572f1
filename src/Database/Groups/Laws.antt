-- ===== src/Database/Groups/Laws.antt =====
-- What the statements on `group_members` and `groups` do to roles and groups.
use hysj.Base.{
  ℕ, ◌-◌, ◌≤◌, ◌≡◌, refl, false, ◌&&◌, none, some, List, [], ◌∷◌, ◌++◌, length, ltb, ◌==◌,
  if◌then◌else◌, arith,
}
use hysj.Database.{Group, GroupMember}
use hysj.Database.Groups.{
  find_group, role_of, is_row, is_some, delete_row, delete_rows, delete_group_row,
}

-- Deleting one row takes away that role only.
pub role_of-delete_row :
    (g u h v : ℕ) (ms : List GroupMember)
    → role_of h v (delete_row g u ms) ≡ (if g == h && u == v then none else role_of h v ms)
unfolding role_of delete_row
role_of-delete_row g u h v [] = ground arith
role_of-delete_row g u h v (m ∷ ms) = ground (arith, role_of-delete_row g u h v ms)

pub role_of-delete_rows :
    (g h v : ℕ) (ms : List GroupMember)
    → role_of h v (delete_rows g ms) ≡ (if g == h then none else role_of h v ms)
unfolding role_of delete_rows
role_of-delete_rows g h v [] = ground arith
role_of-delete_rows g h v (m ∷ ms) = ground (arith, role_of-delete_rows g h v ms)

-- An insertion adds its role, where there was none.
pub role_of-append :
    (h v : ℕ) (ms : List GroupMember) (m : GroupMember)
    → role_of h v ms ≡ none
    → role_of h v (ms ++ m ∷ []) ≡ (if is_row h v m then some m.role else none)
unfolding role_of
role_of-append h v [] m e = refl
role_of-append h v (n ∷ ms) m e = ground (arith, role_of-append h v ms m)

pub role_of-append_ne :
    (h v : ℕ) (ms : List GroupMember) (m : GroupMember)
    → is_row h v m ≡ false
    → role_of h v (ms ++ m ∷ []) ≡ role_of h v ms
unfolding role_of
role_of-append_ne h v [] m e = ground arith
role_of-append_ne h v (n ∷ ms) m e = ground (arith, role_of-append_ne h v ms m e)

pub find_group-delete :
    (g h : ℕ) (gs : List Group)
    → find_group h (delete_group_row g gs) ≡ (if g == h then none else find_group h gs)
unfolding find_group delete_group_row
find_group-delete g h [] = ground arith
find_group-delete g h (x ∷ gs) = ground (arith, find_group-delete g h gs)

length-delete_row : (g u : ℕ) (ms : List GroupMember) → length (delete_row g u ms) ≤ length ms
unfolding delete_row
length-delete_row g u [] = omega arith
length-delete_row g u (m ∷ ms) = ground (arith, length-delete_row g u ms)

-- `rows_affected() > 0` says whether there was a row.
pub delete_row-affected :
    (g u : ℕ) (ms : List GroupMember)
    → ltb 0 (length ms - length (delete_row g u ms)) ≡ is_some (role_of g u ms)
unfolding role_of delete_row
delete_row-affected g u [] = refl
delete_row-affected g u (m ∷ ms) =
    ground (arith, delete_row-affected g u ms, length-delete_row g u ms)

length-delete_group_row : (g : ℕ) (gs : List Group) → length (delete_group_row g gs) ≤ length gs
unfolding delete_group_row
length-delete_group_row g [] = omega arith
length-delete_group_row g (x ∷ gs) = ground (arith, length-delete_group_row g gs)

pub delete_group_row-affected :
    (g : ℕ) (gs : List Group)
    → ltb 0 (length gs - length (delete_group_row g gs)) ≡ is_some (find_group g gs)
unfolding find_group delete_group_row
delete_group_row-affected g [] = refl
delete_group_row-affected g (x ∷ gs) =
    ground (arith, delete_group_row-affected g gs, length-delete_group_row g gs)

-- ===== src/Database/Groups/Lists.antt =====
-- crates/hysj-db/src/groups.rs: the groups of a user.
use hysj.Base.{ℕ, List, [], ◌∷◌, ltb, if◌then◌else◌, ok}
use hysj.Database.{DbError, Group, GroupMember, Run}
use hysj.Database.Groups.{is_some, role_of}
use hysj.Database.Contacts.{page}

-- ORDER BY g.created_at DESC; rows of one time stay in the table's order.
unfoldable pub insert_latest : Group → List Group → List Group
insert_latest g [] = g ∷ []
insert_latest g (h ∷ hs) =
    let rest = insert_latest g hs in if ltb g.created_at h.created_at then h ∷ rest else g ∷ h ∷ hs

-- The join: a group has at most one row for a user, by the primary key of group_members.
unfoldable pub groups_of : ℕ → List GroupMember → List Group → List Group
groups_of user_id members [] = []
groups_of user_id members (g ∷ gs) =
    let rest = groups_of user_id members gs in
    if is_some (role_of g.id user_id members) then insert_latest g rest else rest

unfoldable pub list_groups_for_user : ℕ → Run DbError (List Group)
list_groups_for_user user_id db = (db, ok (groups_of user_id db.group_members db.groups))

unfoldable pub list_groups_for_user_paginated : ℕ → ℕ → ℕ → Run DbError (List Group)
list_groups_for_user_paginated user_id limit offset db =
    (db, ok (page limit offset (groups_of user_id db.group_members db.groups)))

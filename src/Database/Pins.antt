-- ===== src/Database/Pins.antt =====
-- crates/hysj-db/src/pinned_messages.rs. The clock comes last.
use hysj.Base.{
  ℕ, Bool, true, false, ◌&&◌, Bytes, bytes_eq, List, [], ◌∷◌, ◌++◌, ltb, ◌==◌, if◌then◌else◌, ok,
  err,
}
use hysj.Database.{DbError, query_failed, not_found, PinnedMessage, Run}
use hysj.Database.Users.{is_user}
use hysj.Database.Groups.{find_group, is_some}

unfoldable pub is_pinned : ℕ → Bytes → List PinnedMessage → Bool
is_pinned group_id message_id [] = false
is_pinned group_id message_id (p ∷ ps) =
    if p.group_id == group_id && bytes_eq p.message_id message_id
    then true
    else is_pinned group_id message_id ps

-- ON CONFLICT DO NOTHING: a conflict returns no row, and `fetch_one` makes that RowNotFound.
unfoldable pub pin : ℕ → Bytes → ℕ → ℕ → Run DbError PinnedMessage
pin group_id message_id pinned_by now db =
    let pinned : PinnedMessage = record {
      group_id = group_id;
      message_id = message_id;
      pinned_by = pinned_by;
      pinned_at = now;
    } in
    if is_pinned group_id message_id db.pinned_messages
    then (db, err not_found)
    else if is_some (find_group group_id db.groups) && is_user pinned_by db.users
    then (record db { pinned_messages = db.pinned_messages ++ pinned ∷ [] }, ok pinned)
    else (db, err query_failed)

unfoldable pub delete_pin : ℕ → Bytes → List PinnedMessage → List PinnedMessage
delete_pin group_id message_id [] = []
delete_pin group_id message_id (p ∷ ps) =
    let rest = delete_pin group_id message_id ps in
    if p.group_id == group_id && bytes_eq p.message_id message_id then rest else p ∷ rest

unfoldable pub unpin : ℕ → Bytes → Run DbError (Unit {0})
unpin group_id message_id db =
    (record db { pinned_messages = delete_pin group_id message_id db.pinned_messages }, ok tt)

-- ORDER BY pinned_at DESC
unfoldable pub insert_latest : PinnedMessage → List PinnedMessage → List PinnedMessage
insert_latest p [] = p ∷ []
insert_latest p (q ∷ qs) =
    let rest = insert_latest p qs in if ltb p.pinned_at q.pinned_at then q ∷ rest else p ∷ q ∷ qs

unfoldable pub pins_of : ℕ → List PinnedMessage → List PinnedMessage
pins_of group_id [] = []
pins_of group_id (p ∷ ps) =
    let rest = pins_of group_id ps in if p.group_id == group_id then insert_latest p rest else rest

unfoldable pub get_pinned : ℕ → Run DbError (List PinnedMessage)
get_pinned group_id db = (db, ok (pins_of group_id db.pinned_messages))

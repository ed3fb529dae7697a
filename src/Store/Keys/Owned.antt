-- ===== src/Store/Keys/Owned.antt =====
-- internal/store/store.go: what the scoped key operations of one user can see and change.
use subport.Prelude.{
  String, ◌≡◌, refl, ap, Bool, true, false, not, List, [], ◌∷◌, arith, str_eq, ◌==◌, if_rule,
  ==_iff, keep,
}
use subport.Store.Table.{
  count_where, update_where, delete_where, keep-update_where, keep-delete_where,
}
use subport.Store.Rows.{ApiKey, Db}
use subport.Store.Sql.{Result, ok, err, Conn, statement}
use subport.Store.Keys.{
  is_owned, set_key_enabled, delete_key, set_enabled, update_keys, delete_keys,
}

-- The keys of everyone else.
abbrev pub others : String → List ApiKey → List ApiKey
others user = keep (λ (k : ApiKey). not (str_eq k.user_id user))

update_where_none :
    {A : Type 0} (p : A → Bool) (f : A → A) (rows : List A)
    → count_where p rows ≡ 0
    → update_where p f rows ≡ rows
unfolding count_where update_where
update_where_none p f [] h = refl
update_where_none p f (a ∷ rows) h = ground (arith, update_where_none p f rows)

delete_where_none :
    {A : Type 0} (p : A → Bool) (rows : List A)
    → count_where p rows ≡ 0
    → delete_where p rows ≡ rows
unfolding count_where delete_where
delete_where_none p [] h = refl
delete_where_none p (a ∷ rows) h = ground (arith, delete_where_none p rows)

-- What an operation on the keys of `user` may do: the other users' keys are as before, and where it
-- reports an error so is the whole database.
abbrev pub IsScoped : String → Db → Result (Unit {0}) × Db → Type 0
IsScoped user db (ok _, db') = others user db'.keys ≡ others user db.keys
IsScoped user db (err _, db') = db' ≡ db

update_keys-IsScoped :
    (user id : String) (enabled : Bool) (db : Db)
    → IsScoped user db (update_keys (is_owned user id) (set_enabled enabled) db)
unfolding update_keys
update_keys-IsScoped user id enabled db =
    if_rule (IsScoped user db) (count_where (is_owned user id) db.keys == 0) _ _
      (λ z.
        ap (λ ks. record db { keys = ks })
          (update_where_none (is_owned user id) (set_enabled enabled) db.keys ((==_iff _ 0).0 z)))
      (λ _.
        keep-update_where (is_owned user id) (λ k. not (str_eq k.user_id user))
          (set_enabled enabled) db.keys (λ k h. unfold is_owned in (ground arith, ground arith)))

delete_keys-IsScoped :
    (user id : String) (db : Db) → IsScoped user db (delete_keys (is_owned user id) db)
unfolding delete_keys
delete_keys-IsScoped user id db =
    if_rule (IsScoped user db) (count_where (is_owned user id) db.keys == 0) _ _
      (λ z.
        ap (λ ks. record db { keys = ks })
          (delete_where_none (is_owned user id) db.keys ((==_iff _ 0).0 z)))
      (λ _.
        keep-delete_where (is_owned user id) (λ k. not (str_eq k.user_id user)) db.keys
          (λ k h. unfold is_owned in ground arith))

statement-IsScoped :
    (user : String) (f : Db → Result (Unit {0}) × Db) (c : Conn)
    → IsScoped user c.db (f c.db)
    → IsScoped user c.db ((statement f c).0, (statement f c).1.db)
unfolding statement
statement-IsScoped user f c h = go c.faults c.db h
  where
    go :
        (fs : List Bool) (db : Db)
        → IsScoped user db (f db)
        → let r = statement f (record { db = db; faults = fs }) in IsScoped user db (r.0, r.1.db)
    go [] db h = h
    go (true ∷ fs) db h = refl
    go (false ∷ fs) db h = h

-- Enabling, disabling or deleting a key by a user, under any faults, leaves the keys of every other
-- user as they were, and where it reports an error it has changed nothing at all.
pub keys-IsScoped :
    (user id : String) (enabled : Bool) (c : Conn)
    → let (r, c') = set_key_enabled user id enabled c in
      let (s, c'') = delete_key user id c in
      IsScoped user c.db (r, c'.db) × IsScoped user c.db (s, c''.db)
unfolding set_key_enabled delete_key
keys-IsScoped user id enabled c = (
  statement-IsScoped user _ c (update_keys-IsScoped user id enabled c.db),
  statement-IsScoped user _ c (delete_keys-IsScoped user id c.db),
)

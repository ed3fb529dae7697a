-- ===== src/Store/Keys/Presented.antt =====
-- internal/store/store.go, KeyBySecret: which keys open the gateway, and that a revoked key does not.
use subport.Prelude.{
  String, ◌≡◌, refl, ◌⊎◌, inl, inr, Bool, true, false, not, Option, none, some, List, [], ◌∷◌,
  arith, str_eq, if◌then◌else◌, Bool-cases, if_rule, All,
}
use subport.Store.Table.{find_row, find_where, update_where, delete_where, find_where-All}
use subport.Store.Rows.{User, ApiKey, Db}
use mathlib.Core.Path.{subst}
use subport.Store.Sql.{
  continue, pure, Error, not_found, driver_fault, Result, ok, err, Conn, Sql, or_err, raise, select,
  ◌>>=◌,
}
use subport.Store.Quota.{user_key, user_of}
use subport.Store.Keys.{
  is_owned, has_hash, as_not_found, set_key_enabled, delete_key, set_enabled, user_by_id, owner_of,
  key_by_secret,
}

find_row-key :
    {A : Type 0} (key : A → String) (k : String) (rows : List A) (a : A)
    → find_row key k rows ≡ some a
    → str_eq (key a) k ≡ true
unfolding find_row
find_row-key key k [] a e = cc
find_row-key key k (b ∷ rows) a e = ground (arith, find_row-key key k rows a)

-- A lookup of one row and what follows: an error, or the row and the rest on an equal database.
lookup-cases :
    {A B : Type 0} (f : Db → Option A) (k : A → Sql B) (c : Conn)
    → let m = (select f >>= λ x. (or_err x not_found >>= k)) c in
      (((e : Error) × (m.0 ≡ err e)) × (m.1.db ≡ c.db))
      ⊎ ((a : A) × (c' : Conn) × (f c.db ≡ some a) × (c'.db ≡ c.db) × (m ≡ k a c'))
unfolding select
lookup-cases {A} {B} f k c = go c.faults c.db (f c.db) refl
  where
    go :
        (fs : List Bool) (db : Db) (x : Option A)
        → f db ≡ x
        → let m =
            (select f >>= λ y. (or_err y not_found >>= k)) (record { db = db; faults = fs }) in
          (((e : Error) × (m.0 ≡ err e)) × (m.1.db ≡ db))
          ⊎ ((a : A) × (c' : Conn) × (f db ≡ some a) × (c'.db ≡ db) × (m ≡ k a c'))
    go [] db none p = rw p (inl ((not_found, refl), refl))
    go [] db (some a) p = rw p (inr (a, record { db = db; faults = [] }, refl, refl, refl))
    go (true ∷ fs) db x p = inl ((driver_fault, refl), refl)
    go (false ∷ fs) db none p = rw p (inl ((not_found, refl), refl))
    go (false ∷ fs) db (some a) p =
        rw p (inr (a, record { db = db; faults = fs }, refl, refl, refl))

-- What a lookup that ends in ErrNotFound may return.
abbrev pub IsOpen : {A : Type 0} → (A → Type 0) → Db → Result A × Conn → Type 0
IsOpen {A} P db m = (m.1.db ≡ db) × ((m.0 ≡ err not_found) ⊎ ((a : A) × (m.0 ≡ ok a) × P a))

-- The end of a lookup, with the row that was read.
abbrev closed : {A : Type 0} → Result A × Conn → Result A × Conn
closed m = (elim m.0 [ ok a ↦ ok a | err _ ↦ err not_found ], m.1)

abbrev pub IsOwner : String → Db → User → Type 0
IsOwner id db u = (user_of db id ≡ some u) × (str_eq (user_key u) id ≡ true)

looked-IsOpen :
    (id : String) (c : Conn) (x : Option User)
    → user_of c.db id ≡ x
    → IsOpen (IsOwner id c.db) c.db (closed (or_err x not_found c))
looked-IsOpen id c none p = (refl, inl refl)
looked-IsOpen id c (some u) p = (refl, inr (u, refl, (p, find_row-key user_key id c.db.users u p)))

pub user_by_id-IsOpen : (id : String) (c : Conn) → IsOpen (IsOwner id c.db) c.db (user_by_id id c)
unfolding user_by_id select as_not_found
user_by_id-IsOpen id c = go c.faults c.db
  where
    go :
        (fs : List Bool) (db : Db)
        → IsOpen (IsOwner id db) db (user_by_id id (record { db = db; faults = fs }))
    go [] db = looked-IsOpen id (record { db = db; faults = [] }) (user_of db id) refl
    go (true ∷ fs) db = (refl, inl refl)
    go (false ∷ fs) db = looked-IsOpen id (record { db = db; faults = fs }) (user_of db id) refl

module _ (hash : String → String) (secret : String) where
  -- A key that opens the gateway in `db`, and its owner.
  abbrev pub Opens : Db → ApiKey × User → Type 0
  Opens db x =
      (find_where (has_hash (hash secret)) db.keys ≡ some x.0)
      × (x.0.enabled ≡ true)
      × (user_of db x.0.user_id ≡ some x.1)
      × (str_eq x.1.id x.0.user_id ≡ true)

  abbrev after_key : ApiKey → Sql (ApiKey × User)
  after_key k = if not k.enabled then raise not_found else owner_of hash k

  owned-IsOpen :
      (k : ApiKey) (db : Db) (m : Result User × Conn)
      → find_where (has_hash (hash secret)) db.keys ≡ some k
      → k.enabled ≡ true
      → IsOpen (IsOwner k.user_id db) db m
      → IsOpen (Opens db) db (closed (continue m.0 (λ u. pure (k, u)) m.1))
  owned-IsOpen k db (ok u, c) found on (same, inl gone) = cc
  owned-IsOpen k db (ok u, c) found on (same, inr (v, is_ok, (row, own))) =
      (same, inr ((k, u), refl, (found, on, ground arith, ground arith)))
  owned-IsOpen k db (err e, c) found on h = (h.0, inl refl)

  after_key-IsOpen :
      (k : ApiKey) (db : Db) (c : Conn)
      → c.db ≡ db
      → find_where (has_hash (hash secret)) db.keys ≡ some k
      → IsOpen (Opens db) db (closed (after_key k c))
  after_key-IsOpen k db c same found =
      if_rule (λ (m : Sql (ApiKey × User)). IsOpen (Opens db) db (closed (m c))) (not k.enabled) _ _
        (λ _. (same, inl refl))
        (λ on.
          subst
            (λ d.
              find_where (has_hash (hash secret)) d.keys ≡ some k
              → IsOpen (Opens d) d (closed (owner_of hash k c)))
            same
            (λ f.
              owned-IsOpen k c.db (user_by_id k.user_id c) f (ground arith)
                (user_by_id-IsOpen k.user_id c))
            found)

  -- Whatever the driver does, a presented secret changes nothing, and it either is not found, as
  -- every error reads, or opens with the key whose hash it has, which is enabled, and with the user
  -- who owns that key.
  pub key_by_secret-IsOpen : (c : Conn) → IsOpen (Opens c.db) c.db (key_by_secret hash secret c)
  unfolding key_by_secret as_not_found
  key_by_secret-IsOpen c =
      if_rule (λ (m : Sql (ApiKey × User)). IsOpen (Opens c.db) c.db (m c)) (str_eq secret "") _ _
        (λ _. (refl, inl refl))
        (λ _.
          closing (lookup-cases (λ db. find_where (has_hash (hash secret)) db.keys) after_key c))
    where
      closing :
          {m : Result (ApiKey × User) × Conn}
          → (((e : Error) × (m.0 ≡ err e)) × (m.1.db ≡ c.db))
            ⊎ ((k : ApiKey) × (c' : Conn) × (find_where (has_hash (hash secret)) c.db.keys ≡ some k)
                × (c'.db ≡ c.db)
                × (m ≡ after_key k c'))
          → IsOpen (Opens c.db) c.db (closed m)
      closing (inl ((e, failed), same)) = (same, inl (rw failed refl))
      closing (inr (k, c', found, same, next)) = rw next (after_key-IsOpen k c.db c' same found)

-- No key of the user with this id opens the gateway.
abbrev IsShut : String → String → ApiKey → Type 0
IsShut user id k = (is_owned user id k ≡ true) → k.enabled ≡ false

update_where-IsShut :
    (user id : String) (rows : List ApiKey)
    → All (IsShut user id) (update_where (is_owned user id) (set_enabled false) rows)
unfolding update_where is_owned
update_where-IsShut user id [] = tt
update_where-IsShut user id (k ∷ rows) = (ground arith, update_where-IsShut user id rows)

delete_where-IsShut :
    (user id : String) (rows : List ApiKey)
    → All (IsShut user id) (delete_where (is_owned user id) rows)
unfolding delete_where
delete_where-IsShut user id [] = tt
delete_where-IsShut user id (k ∷ rows) = elim (Bool-cases (is_owned user id k)) [
  | inl y ↦ rw y (delete_where-IsShut user id rows)
  | inr n ↦ rw n (λ y. cc, delete_where-IsShut user id rows)
]

set_key_enabled-IsShut :
    (user id : String) (c : Conn)
    → (set_key_enabled user id false c).0 ≡ ok tt
    → All (IsShut user id) (set_key_enabled user id false c).1.db.keys
unfolding set_key_enabled
set_key_enabled-IsShut user id c h = ground (arith, update_where-IsShut user id c.db.keys)

delete_key-IsShut :
    (user id : String) (c : Conn)
    → (delete_key user id c).0 ≡ ok tt
    → All (IsShut user id) (delete_key user id c).1.db.keys
unfolding delete_key
delete_key-IsShut user id c h = ground (arith, delete_where-IsShut user id c.db.keys)

shut :
    (hash : String → String) (secret user id : String) (c : Conn) (k : ApiKey) (u : User)
    → All (IsShut user id) c.db.keys
    → (key_by_secret hash secret c).0 ≡ ok (k, u)
    → is_owned user id k ≡ false
shut hash secret user id c k u all opened = ground (
  arith,
  (key_by_secret-IsOpen hash secret c).1,
  find_where-All (IsShut user id) (has_hash (hash secret)) c.db.keys k all,
)

-- The two ways in which an owner revokes a key.
abbrev pub revoke : Bool → String → String → Sql (Unit {0})
revoke by_delete user id = if by_delete then delete_key user id else set_key_enabled user id false

revoke-IsShut :
    (by_delete : Bool) (user id : String) (c : Conn)
    → (revoke by_delete user id c).0 ≡ ok tt
    → All (IsShut user id) (revoke by_delete user id c).1.db.keys
revoke-IsShut true = delete_key-IsShut
revoke-IsShut false = set_key_enabled-IsShut

-- A key that its owner has disabled or deleted opens the gateway no more: after a SetKeyEnabled
-- (false) or a DeleteKey that succeeds, whatever the driver does later, a secret that opens does so
-- with a key of another id or owner.
pub revoked_key :
    (hash : String → String) (secret user id : String) (by_delete : Bool) (c : Conn)
    (fs : List Bool) (k : ApiKey) (u : User)
    → (revoke by_delete user id c).0 ≡ ok tt
    → (key_by_secret hash secret (record { db = (revoke by_delete user id c).1.db; faults = fs })).0
      ≡ ok (k, u)
    → is_owned user id k ≡ false
revoked_key hash secret user id by_delete c fs k u done opened =
    shut hash secret user id _ k u (revoke-IsShut by_delete user id c done) opened

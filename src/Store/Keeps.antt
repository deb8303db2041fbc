-- ===== src/Store/Keeps.antt =====
-- What a statement, a transaction, a command or a call of the upstream keeps of the tables.
use platform_mihomo_service.Base.{ℕ, String, Bool, some, List, ◌≡◌, sym, subst, refl}
use platform_mihomo_service.Base.Int.{ℤ}
use platform_mihomo_service.Outcome.{Error, Result, ok, err, M}
use platform_mihomo_service.Outcome.Keeps.{Keeps}
use platform_mihomo_service.Store.{Table, Redis, World}
use platform_mihomo_service.Store.Laws.{
  Tables, View, Lens, IsTable, IsWorld, Ended, committed, rolled_back,
}

module _ {S : Type 0} (view : S → View) (Q : Tables → Type 0) where
  -- A predicate of the tables, on the states.
  abbrev pub On : S → Type 0
  On s = Q (view s).tables

  -- A call that leaves the tables as they are keeps every predicate of them.
  pub Keeps_of_same :
      {A : Type 0} (m : M S A) → ((s : S) → (view (m s).1).tables ≡ (view s).tables) → Keeps On m
  Keeps_of_same m same = record { at = λ s h. subst Q (sym (same s)) h }

-- The predicate stands whatever rows a table has.
abbrev pub IsFree : {Row : Type 0} → Lens Row → (Tables → Type 0) → Type 0
IsFree {Row} lens Q = (t : Tables) (rows : List Row) → Q t → Q (lens.put t rows)

module _ {S Row : Type 0} (view : S → View) (Q : Tables → Type 0) (lens : Lens Row)
    (in_the_way : Row → Row → Bool) (with_id : ℕ → Row → Row) (t : Table S Row)
    (is_table : IsTable view lens in_the_way with_id t) where
  same_view : {s s' : S} → view s' ≡ view s → Q (view s).tables → Q (view s').tables
  same_view e q = subst (λ v. Q v.tables) (sym e) q

  -- What a statement keeps, from what it does where it succeeds; one that fails changes nothing.
  of_result :
      {A : Type 0} (m : M S A)
      → ((s : S) (a : A) (s' : S) → m s ≡ (ok a, s') → Q (view s).tables → Q (view s').tables)
      → ((s : S) (e : Error) (s' : S) → m s ≡ (err e, s') → view s' ≡ view s)
      → Keeps (On view Q) m
  of_result {A} m succeeded failed = record { at = λ s q. go s (m s) refl q }
    where
      go : (s : S) (x : Result A × S) → m s ≡ x → Q (view s).tables → Q (view x.1).tables
      go s (ok a, s') e q = succeeded s a s' e q
      go s (err x, s') e q = same_view (failed s x s' e) q

  pub Keeps-first : (q : Row → Bool) → Keeps (On view Q) (t.first q)
  Keeps-first q =
      of_result (t.first q)
        (λ s r s' e k. let (_, _, same) = is_table.first_ok q s r s' e in same_view same k)
        (is_table.first_err q)

  pub Keeps-find : (q : Row → Bool) → Keeps (On view Q) (t.find q)
  Keeps-find q =
      of_result (t.find q)
        (λ s rs s' e k. let (_, same) = is_table.find_ok q s rs s' e in same_view same k)
        (is_table.find_err q)

  pub Keeps-count : (q : Row → Bool) → Keeps (On view Q) (t.count q)
  Keeps-count q =
      of_result (t.count q)
        (λ s n s' e k. let (_, same) = is_table.count_ok q s n s' e in same_view same k)
        (is_table.count_err q)

  module _ (free : IsFree lens Q) where
    put_rows :
        {s s' : S} (rows : List Row)
        → view s' ≡ record (view s) { tables = lens.put (view s).tables rows }
        → Q (view s).tables
        → Q (view s').tables
    put_rows {s} rows e q = subst (λ v. Q v.tables) (sym e) (free (view s).tables rows q)

    pub Keeps-delete : (q : Row → Bool) → Keeps (On view Q) (t.delete q)
    Keeps-delete q =
        of_result (t.delete q) (λ s u s' e k. put_rows _ (is_table.delete_ok q s s' e) k)
          (is_table.delete_err q)

    pub Keeps-update : (q : Row → Bool) (f : Row → Row) → Keeps (On view Q) (t.update q f)
    Keeps-update q f = record {
      at = λ s k. let (rows, e) = is_table.update_rows q f s in put_rows rows e k;
    }

    pub Keeps-create : (new : Row) → Keeps (On view Q) (t.create new)
    Keeps-create new =
        of_result (t.create new)
          (λ s u s' e k. let (_, _, same) = is_table.create_ok new s s' e in put_rows _ same k)
          (is_table.create_err new)

    pub Keeps-upsert :
        (same : Row → Row → Bool) (merge : Row → Row → Row) (new : Row)
        → Keeps (On view Q) (t.create_on_conflict same merge new)
    Keeps-upsert same merge new = record {
      at = λ s q. let (rows, e) = is_table.upsert_rows same merge new s in put_rows rows e q;
    }

module _ {S : Type 0} (view : S → View) (Q : Tables → Type 0) (w : World S)
    (ok_world : IsWorld view w) where
  pub Keeps-transaction :
      {A : Type 0} (body : M S A)
      → Keeps (On view Q) body
      → Keeps (On view Q) (w.transaction A body)
  Keeps-transaction {A} body k = record {
    at = λ s q. go s (w.transaction A body s) (ok_world.transaction_ends A body s) (k.at s q) q;
  }
    where
      go :
          (s : S) (x : Result A × S)
          → Ended view s (body s) x
          → Q (view (body s).1).tables
          → Q (view s).tables
          → Q (view x.1).tables
      go s x (committed a u s' e same v) after q =
          let at_u : Q (view u).tables = subst (λ y. Q (view y.1).tables) e after in
          subst (λ y. Q (view y.1).tables) (sym same) (subst (λ z. Q z.tables) (sym v) at_u)
      go s x (rolled_back e s' same v) after q =
          subst (λ y. Q (view y.1).tables) (sym same) (subst Q (sym v) q)

  pub Keeps-redis_get :
      (redis : Redis S) → w.redis ≡ some redis → (key : String) → Keeps (On view Q) (redis.get key)
  Keeps-redis_get redis e key =
      Keeps_of_same view Q (redis.get key) (λ s. ok_world.redis_get_tables redis key s e)

  pub Keeps-redis_set :
      (redis : Redis S)
      → w.redis ≡ some redis
      → (key payload : String) (ttl : ℤ) → Keeps (On view Q) (redis.set key payload ttl)
  Keeps-redis_set redis e key payload ttl =
      Keeps_of_same view Q (redis.set key payload ttl)
        (λ s. ok_world.redis_set_tables redis key payload ttl s e)

  pub Keeps-redis_del :
      (redis : Redis S)
      → w.redis ≡ some redis
      → (keys : List String) → Keeps (On view Q) (redis.del keys)
  Keeps-redis_del redis e keys =
      Keeps_of_same view Q (redis.del keys) (λ s. ok_world.redis_del_tables redis keys s e)

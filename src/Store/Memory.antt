-- ===== src/Store/Memory.antt =====
-- A world that keeps its rows in memory and never fails: it meets the laws, so they can hold
-- together. The theorems' instances run in it.
use platform_mihomo_service.Base.{
  leb, ◌&&◌, if◌then◌else◌, ◌+◌, ◌*◌, ◌/◌, ℕ, suc, Bool, true, false, not, Option, none, some, List,
  [], ◌∷◌, ◌++◌, ◌≡◌, ◌⊎◌, inl, inr, refl, ap, All, any, keep, find?, length, arith, Bool-cases,
}
use platform_mihomo_service.Base.Int.{pos, negsuc}
use platform_mihomo_service.Base.Text.{to_char}
use Prim.Native.Char.{Char, code}
use Prim.Native.String.{String}
use platform_mihomo_service.Biz.{Time}
use platform_mihomo_service.Outcome.{Result, ok, err, record_not_found, external}
use platform_mihomo_service.Outcome.Laws.{ok-injective}
use platform_mihomo_service.Biz.Repositories.{Cipher}
use platform_mihomo_service.Upstream.{stub_client}
use platform_mihomo_service.Store.{Table, World}
use platform_mihomo_service.Store.Laws.{
  View, Lens, Among, updated, upserted, IsTable, Ended, committed, rolled_back, credential_lens,
  device_lens, profile_lens, artifact_lens, grant_lens, credential_in_the_way, device_in_the_way,
  profile_in_the_way, artifact_in_the_way, grant_in_the_way, IsWorld, stored_credential,
  stored_device, stored_profile, stored_artifact, stored_grant,
}

module _ {Row : Type 0} where
  abbrev found : Option Row → Result Row
  found none = err record_not_found
  found (some r) = ok r

  abbrev replace : Lens Row → View → List Row → View
  replace lens v rows = record v { tables = lens.put v.tables rows }

  abbrev added : (ℕ → Row → Row) → Row → List Row → Row
  added with_id r rows = with_id (suc (length rows)) r

  abbrev table : Lens Row → (ℕ → Row → Row) → Table View Row
  table lens with_id = record {
    first = λ q v. (found (find? q (lens.rows v.tables)), v);
    find = λ q v. (ok (keep q (lens.rows v.tables)), v);
    count = λ q v. (ok (length (keep q (lens.rows v.tables))), v);
    delete = λ q v. (ok tt, replace lens v (keep (λ r. not (q r)) (lens.rows v.tables)));
    update = λ q f v. (
      ok (length (keep q (lens.rows v.tables))),
      replace lens v (updated q f (lens.rows v.tables)),
    );
    create = λ r v.
        (ok tt, replace lens v (lens.rows v.tables ++ added with_id r (lens.rows v.tables) ∷ []));
    create_on_conflict = λ same merge r v. (
      ok tt,
      replace lens v (
          upserted same merge (added with_id r (lens.rows v.tables))
            (added with_id r (lens.rows v.tables)) (lens.rows v.tables)),
    );
  }

  find?-Among :
      (q : Row → Bool) (rows : List Row) (r : Row)
      → find? q rows ≡ some r
      → Among r rows × (q r ≡ true)
  find?-Among q [] r h = absurd (ground arith)
  find?-Among q (x ∷ xs) r h = elim (Bool-cases (q x)) [
    | inl hit ↦ let same : x ≡ r = ground arith in (inl same, rw (← same) hit)
    | inr miss ↦ let (there, hit) = find?-Among q xs r (ground arith) in (inr there, hit)
  ]

  find?-none :
      (q : Row → Bool) (rows : List Row) → find? q rows ≡ none → All (λ r. q r ≡ false) rows
  find?-none q [] h = tt
  find?-none q (x ∷ xs) h = ground (arith, find?-none q xs)

  found-ok : (o : Option Row) (r : Row) → found o ≡ ok r → o ≡ some r
  found-ok none r h = cc
  found-ok (some x) r h = cc

  found-none : (o : Option Row) → found o ≡ err record_not_found → o ≡ none
  found-none none h = refl
  found-none (some x) h = cc

  any_or_none :
      (q : Row → Bool) (rows : List Row) → (length (keep q rows) ≡ 0) ⊎ (any q rows ≡ true)
  any_or_none q [] = inl refl
  any_or_none q (x ∷ xs) = ground (arith, any_or_none q xs)

module _ {Row : Type 0} (lens : Lens Row) (in_the_way : Row → Row → Bool)
    (with_id : ℕ → Row → Row) where
  table-IsTable : IsTable (λ v. v) lens in_the_way with_id (table lens with_id)
  table-IsTable = record {
    first_ok = λ q s r s' h.
        let (there, hit) =
          find?-Among q (lens.rows s.tables) r
            (found-ok _ r (ap (λ (x : Result Row × View). x.0) h)) in
        (there, hit, cc);
    first_none = λ q s s' h.
        find?-none q (lens.rows s.tables) (found-none _ (ap (λ (x : Result Row × View). x.0) h));
    first_err = λ q s e s' h. cc;
    find_ok = λ q s rs s' h. (cc, cc);
    find_err = λ q s e s' h. cc;
    count_ok = λ q s n s' h. (cc, cc);
    count_err = λ q s e s' h. cc;
    delete_ok = λ q s s' h. cc;
    delete_err = λ q s e s' h. cc;
    update_ok = λ q f s n s' p h. (
      cc,
      rw (← (ok-injective (ap (λ (x : Result ℕ × View). x.0) h)))
          (any_or_none q (lens.rows s.tables)),
    );
    update_rows = λ q f s. (_, refl);
    update_err = λ q f s e s' h. cc;
    create_ok = λ new s s' h. (suc (length (lens.rows s.tables)), omega arith, cc);
    create_err = λ new s e s' h. cc;
    upsert_ok = λ same merge new s s' p h. (suc (length (lens.rows s.tables)), omega arith, cc);
    upsert_rows = λ same merge new s. (_, refl);
    upsert_err = λ same merge new s e s' h. cc;
  }

-- The transaction of the memory: a body that fails is undone.
abbrev undo_on_error : {A : Type 0} → View → Result A × View → Result A × View
undo_on_error v (ok a, u) = (ok a, u)
undo_on_error v (err e, u) = (err e, v)

undo_on_error-Ended :
    {A : Type 0} (s : View) (body : Result A × View)
    → Ended {S = View} (λ v. v) s body (undo_on_error s body)
undo_on_error-Ended s (ok a, u) = committed a u u refl refl refl
undo_on_error-Ended s (err e, u) = rolled_back e s refl refl

abbrev plain : Cipher View
plain = record { encrypt_string = λ t v. (ok t, v); decrypt_string = λ t. ok t }

-- The letters A to Z and a to z have the same weights.
abbrev pub fold_char : Char → Char
fold_char c = if leb b'A' (code c) && leb (code c) b'Z' then to_char (code c + 32) else c

abbrev pub fold : String → String
fold String.[] = String.[]
fold (String.◌∷◌ c s) = String.◌∷◌ (fold_char c) (fold s)

-- A time after 1970, rounded to milliseconds.
abbrev pub to_millis : Time → Time
to_millis (pos n) = pos ((n + 500000) / 1000000 * 1000000)
to_millis (negsuc n) = negsuc n

-- There is no cache here, and no binding to list.
abbrev pub memory : World View
memory = record {
  credential_records = table credential_lens (stored_credential to_millis);
  device_records = table device_lens (stored_device to_millis);
  account_profiles = table profile_lens (stored_profile to_millis);
  runtime_artifacts = table artifact_lens (stored_artifact to_millis);
  consumer_grant_invalidations = table grant_lens (stored_grant to_millis);
  union_binding_ids = λ key v. (ok [], v);
  transaction = λ A body v. undo_on_error v (body v);
  collate = fold;
  datetime = to_millis;
  redis = none;
  prefix = "mihomo:";
  marshal = λ a. err (external "no codec");
  unmarshal = λ t. err (external "no codec");
  now = λ v. (pos 100, v);
  client = stub_client;
  cipher = plain;
}

pub memory-IsWorld : IsWorld (λ v. v) memory
memory-IsWorld = record {
  credential_table = table-IsTable credential_lens (credential_in_the_way fold) _;
  device_table = table-IsTable device_lens (device_in_the_way fold) _;
  profile_table = table-IsTable profile_lens (profile_in_the_way fold) _;
  artifact_table = table-IsTable artifact_lens (artifact_in_the_way fold) _;
  grant_table = table-IsTable grant_lens (grant_in_the_way fold) _;
  transaction_ends = λ A body s. undo_on_error-Ended s (body s);
  redis_del_tables = λ redis keys s e. absurd cc;
  redis_get_tables = λ redis key s e. absurd cc;
  redis_set_tables = λ redis key payload ttl s e. absurd cc;
  clock_view = λ s. refl;
  discover_view = λ cookie region s. refl;
  issue_view = λ cookie player s. refl;
  encrypt_view = λ text s. refl;
}

abbrev pub empty_view : View
empty_view = record {
  tables = record {
    credential_records = [];
    device_records = [];
    account_profiles = [];
    runtime_artifacts = [];
    consumer_grant_invalidations = [];
  };
  cache = λ k. none;
}

-- The memory behind a connection that is lost when a credential's row is deleted.
abbrev pub lost_connection : World View
lost_connection = record memory {
  credential_records = record (table credential_lens (stored_credential to_millis)) {
    delete = λ q v. (err (external "lost connection"), v);
  };
}

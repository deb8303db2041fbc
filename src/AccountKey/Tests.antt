-- ===== src/AccountKey/Tests.antt =====
-- The key of a platform account, at concrete keys.
use platform_mihomo_service.Base.{String, some, ◌≡◌, ◌<◌, ◌^◌, refl, arith}
use platform_mihomo_service.Outcome.{ok, err, invalid_account_key, invalid_binding_id}
use platform_mihomo_service.AccountKey.{
  parse_uint, format_platform_account_id, binding_id_from_platform_account_id,
}
use platform_mihomo_service.AccountKey.RoundTrip.{
  legacy_key, binding_id-format_platform_account_id, binding_id-legacy_key,
}
use platform_mihomo_service.AccountKey.Sound.{HasPart, binding_id_sound}

-- A key that has an empty id, and one whose id is no uint64.
refused_keys :
    (binding_id_from_platform_account_id "binding__1" ≡ err (invalid_account_key "binding__1"))
    × (binding_id_from_platform_account_id "binding_18446744073709551616_1"
        ≡ err (invalid_binding_id "18446744073709551616"))
unfolding binding_id_from_platform_account_id
refused_keys = (refl, refl)

binding_id-format_platform_account_id_example :
    binding_id_from_platform_account_id (format_platform_account_id 42 "cn_10001") ≡ ok 42
binding_id-format_platform_account_id_example =
    binding_id-format_platform_account_id 42 "cn_10001" (omega arith)

binding_id-legacy_key_example : binding_id_from_platform_account_id (legacy_key 42 "10001") ≡ ok 42
binding_id-legacy_key_example = binding_id-legacy_key 42 "10001" (omega arith)

binding_id_sound_example :
    (part : String) × HasPart "binding_7_10001" part × (parse_uint part ≡ some 7) × (7 < 2 ^ 64)
unfolding binding_id_from_platform_account_id
binding_id_sound_example = binding_id_sound "binding_7_10001" 7 refl

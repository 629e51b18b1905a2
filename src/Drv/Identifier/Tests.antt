-- ===== src/Drv/Identifier/Tests.antt =====
-- Identifiers of derivations.
use eka_ci.Prelude.{◌≡◌, refl, ◌↔◌, ◌++◌, true, some, all, any, eq_list}
use eka_ci.Prelude.Text.{Text, text}
use eka_ci.Prelude.Bytes.{byte_len, len_utf8}
use eka_ci.Drv.Identifier.{
  try_from, strip_store_path, rsplit_once, split_once, check_id, check_stem, check_parts, is_base32,
  is_valid_name_byte, is_ascii_alphanumeric, drv_hash, store_path,
}
use eka_ci.Drv.Identifier.Parsed.{IsDrvId, IsFileName, try_from_iff, try_from-store_path}

abbrev hello : Text
hello = text "jd83l3jn2mkn530lgcg0y523jq5qji85-hello-2.12.1.drv"

try_from_iff_example :
    (try_from (text "/gnu/" ++ hello) ≡ some hello)
    ↔ (IsDrvId hello × IsFileName hello (text "/gnu/" ++ hello))
try_from_iff_example = try_from_iff (text "/gnu/" ++ hello) hello

try_from-store_path_example :
    (try_from (store_path hello) ≡ some hello)
    × ((hash name : Text) × (drv_hash hello ≡ some hash)
        × (all is_base32 hash ≡ true)
        × (split_once b'-' hello ≡ some (hash, name)))
unfolding try_from strip_store_path rsplit_once split_once check_id check_stem check_parts is_base32
    is_valid_name_byte is_ascii_alphanumeric byte_len len_utf8 all any eq_list
try_from-store_path_example = try_from-store_path (text "/gnu/" ++ hello) hello refl

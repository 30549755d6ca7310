-- ===== src/JwtTool/Examples.antt =====
-- Tests of the tool, and its theorems at concrete inputs.
use Prim.Native.String
use servion.Base.{
  ℕ, String, false, [], ◌∷◌, Option, none, some, ◌≡◌, refl, ap, sym, inr, eq_iff, str_eq, arith,
  ◌≤◌, ◌*◌, put,
}
use servion.Base.Int.{ℤ, pos, negsuc}
use servion.Text.{is_space, trim_space, split, join, has_suffix}
use servion.Jwt.{info_of, string, array, scalar, text, is_separator}
use servion.JwtTool.{Flags, split_trim, cut, standard_claims, put_attrs, build_claims, Unsigned}
use servion.JwtTool.Durations.{
  digits_value, day, parse_duration, scan_int, days_of, signed64, drop_last,
}
use servion.JwtTool.Days.{parse_duration_days}
use servion.JwtTool.Puts.{Names}
use servion.JwtTool.ReadBack.{info_of-build_claims}

-- time.ParseDuration, of nothing.
abbrev no_duration : String → Option ℤ
no_duration s = none

-- What stands behind the number of days is not read.
parse_duration_test : parse_duration no_duration "1h2d" ≡ some (pos 86_400_000_000_000)
unfolding parse_duration scan_int drop_last has_suffix days_of signed64 digits_value
parse_duration_test = refl

parse_duration_days_example :
    let parsed = parse_duration no_duration (String.◌++◌ "106752" "d") in
    (digits_value 0 "106752" ≤ 106751 → parsed ≡ some (pos (digits_value 0 "106752" * day)))
    × (106752 ≤ digits_value 0 "106752"
        → digits_value 0 "106752" ≤ 213503
        → (k : ℕ) × (parsed ≡ some (negsuc k)))
parse_duration_days_example =
    parse_duration_days no_duration "106752" refl (refl, (refl, (refl, (refl, (refl, (refl, tt))))))

abbrev flags : Flags
flags = record {
  private_key = "";
  secret = "s";
  subject = "ada";
  issuer = "";
  audience = "";
  roles = "admin, site ops";
  scopes = "read,write";
  expiry = "7d";
  attrs = "team = core" ∷ [];
  interactive = false;
}

abbrev signed : Unsigned
signed = record {
  claims =
      ("sub", string "ada")
      ∷ ("exp", scalar)
      ∷ ("iat", scalar)
      ∷ ("roles", array (text "admin" ∷ text "site ops" ∷ []))
      ∷ ("scope", string "read write")
      ∷ ("team", string "core")
      ∷ [];
  lifetime = pos 604_800_000_000_000;
}

build_claims_test : build_claims no_duration flags ≡ inr signed
unfolding build_claims standard_claims put_attrs parse_duration scan_int drop_last has_suffix
    days_of signed64 split_trim split trim_space cut put join digits_value
build_claims_test = refl

name_of : Option (String × String) → String
name_of none = ""
name_of (some (k, v)) = k

team_apart : (key : String) → str_eq "team" key ≡ false → Names key "team = core"
unfolding name_of cut trim_space
team_apart key o k v e h =
    let name : k ≡ "team " = sym (ap name_of e) in
    absurd (ground (arith, eq_iff "team" key, ap trim_space name))

info_of-build_claims_example :
    let info =
      info_of
        record {
          secret = "s";
          public_key_b64 = "";
          issuer = "";
          audience = "";
          roles_claim = "roles";
          scopes_claim = "scope";
        }
        "#"
        signed.claims in
    (info.subject ≡ "ada")
    × (info.issuer ≡ "")
    × (info.roles ≡ split_trim "admin, site ops")
    × (info.scopes ≡ split_trim "read,write")
unfolding split_trim split trim_space is_separator is_space
info_of-build_claims_example =
    info_of-build_claims no_duration flags
      (record {
        secret = "s";
        public_key_b64 = "";
        issuer = "";
        audience = "";
        roles_claim = "roles";
        scopes_claim = "scope";
      })
      signed "#" build_claims_test refl refl
      (
        (
          team_apart "sub" refl,
          team_apart "iss" refl,
          team_apart "roles" refl,
          team_apart "scope" refl,
        ),
        tt,
      )
      (
        ((refl, (refl, (refl, (refl, (refl, tt))))), (refl, (refl, (refl, (refl, tt))))),
        (
          (
            (refl, (refl, (refl, (refl, (refl, (refl, tt)))))),
            (refl, (refl, (refl, (refl, (refl, tt))))),
          ),
          tt,
        ),
      )

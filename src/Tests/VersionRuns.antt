-- ===== src/Tests/VersionRuns.antt =====
-- The packed version word of version 1.2.3.
use Prim.Native.Char.{code}
use Prim.Native.String.{String}
use zonal_zero_trust_auth.Base.{ℕ, List, [], ◌∷◌, ◌++◌, ◌+◌, ◌≡◌, ◌≤◌, ◌<◌, ◌↔◌, refl, true, arith}
use zonal_zero_trust_auth.Version.{
  word_fits, version_string, sw_major_version, sw_minor_version, sw_patch_version, version_word,
  pack, unpack, check_version, IsOlder, unpack-pack,
}

-- The characters of a text.
abbrev codes : String → List ℕ
codes String.[] = []
codes (String.◌∷◌ c s) = code c ∷ codes s

abbrev digit : ℕ → List ℕ
digit n = (b'0' + n) ∷ []

-- The version string spells the version numbers.
string_run :
    codes version_string
    ≡ codes "zzta/"
      ++ (digit sw_major_version
          ++ (codes "." ++ (digit sw_minor_version ++ (codes "." ++ digit sw_patch_version))))
string_run = refl

word_run : version_word ≡ 0x00010000
word_run = refl

word_fits_run : word_fits ≡ true
word_fits_run = refl

exact_run : check_version 1 0 0 ≡ true
exact_run = refl

-- The cast to a byte lets a major version of 257 through.
wrapped_run : check_version 257 0 0 ≡ true
wrapped_run = refl

unpack-pack_example :
    (pack 1 2 3 ≤ 0xffffff)
    × (unpack (pack 1 2 3) ≡ (1, 2, 3))
    × ((pack 1 2 3 < pack 1 3 0) ↔ IsOlder (1, 2, 3) (1, 3, 0))
unpack-pack_example =
    unpack-pack 1 2 3 1 3 0 (omega arith) (omega arith) (omega arith) (omega arith) (omega arith)
      (omega arith)

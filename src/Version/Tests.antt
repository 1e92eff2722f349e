-- ===== src/Version/Tests.antt =====
-- The versions of the source's table.
use tsheadroom.Prelude.{◌≡◌, refl, codes, true, false}
use tsheadroom.Go.Strconv.{atoi}
use tsheadroom.Go.Strings.{split_n}
use tsheadroom.Version.{supports_savings_profile}

before : supports_savings_profile (codes "0.25.9") ≡ false
unfolding supports_savings_profile atoi split_n
before = refl

patch_and_suffix : supports_savings_profile (codes "0.26.0rc1") ≡ true
unfolding supports_savings_profile atoi split_n
patch_and_suffix = refl

odd : supports_savings_profile (codes "garbage") ≡ true
unfolding supports_savings_profile atoi split_n
odd = refl

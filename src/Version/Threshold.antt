-- ===== src/Version/Threshold.antt =====
-- From which version on the knob is there.
use tsheadroom.Prelude.{
  ℕ, suc, ◌<◌, ◌^◌, ◌≡◌, Bytes, ◌++◌, ◌∷◌, [], ◌||◌, ltb, leb, arith, All, ◌≢◌,
}
use tsheadroom.Go.Strings.Laws.{split_n-three}
use tsheadroom.Go.Strconv.{itoa, atoi-itoa, digit-ne-dot}
use tsheadroom.Version.{supports_savings_profile, supports_parts}

itoa-ne-dot : (n : ℕ) → All (λ c. c ≢ b'.') (itoa n)
unfolding itoa
itoa-ne-dot n = digit-ne-dot (suc n) n [] tt

-- Of a version "major.minor.patch" the knob is supported exactly from 0.26 on, whatever follows the
-- second dot.
pub supports_savings_profile-eq :
    (major minor : ℕ) (patch : Bytes)
    → major < 2 ^ 63
    → minor < 2 ^ 63
    → supports_savings_profile (itoa major ++ b'.' ∷ (itoa minor ++ b'.' ∷ patch))
      ≡ (ltb 0 major || leb 26 minor)
supports_savings_profile-eq major minor patch h k =
    unfold supports_savings_profile in
    rw (split_n-three b'.' (itoa major) (itoa minor) patch (itoa-ne-dot major) (itoa-ne-dot minor))
      (unfold supports_parts in rw (atoi-itoa major h, atoi-itoa minor k) (ground arith))

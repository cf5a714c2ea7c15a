-- ===== src/User/Revoked.antt =====
-- Keys that are not valid any more (app/domain/entities/api_key.py).
use aiagent_x.Common.{ℕ, ◌≤◌, ◌≡◌, arith, true, false, some, Option-cases, inl, inr, List, [], ◌∷◌}
use aiagent_x.User.{ApiKey, is_valid, is_expired, revoke, record_usage}

-- The methods that change a key.
pub data Call : Type 0 where
  revokes uses : (now now' : ℕ) → Call

unfoldable pub apply_all : List Call → ApiKey → ApiKey
unfolding revoke record_usage
apply_all [] k = k
apply_all (revokes now now' ∷ calls) k = apply_all calls (revoke now now' k)
apply_all (uses now now' ∷ calls) k = apply_all calls (record_usage now now' k)

revoked-valid :
    (calls : List Call) (t later : ℕ) (k : ApiKey)
    → k.revoked_at ≡ some t
    → ((apply_all calls k).revoked_at ≡ some t) × (is_valid later (apply_all calls k) ≡ false)
unfolding apply_all is_valid
revoked-valid [] t later k h = ground (arith, h)
revoked-valid (revokes now now' ∷ calls) t later k h =
    revoked-valid calls t later (revoke now now' k) (ground (arith, h))
revoked-valid (uses now now' ∷ calls) t later k h =
    revoked-valid calls t later (record_usage now now' k) h

expired_stays :
    (calls : List Call) (now later : ℕ) (k : ApiKey)
    → is_expired now k ≡ true
    → now ≤ later
    → is_valid later (apply_all calls k) ≡ false
unfolding apply_all is_valid is_expired revoke
expired_stays [] now later k h o = ground (arith, h)
expired_stays (revokes t t' ∷ calls) now later k h o =
    expired_stays calls now later (revoke t t' k) (ground (arith, h)) o
expired_stays (uses t t' ∷ calls) now later k h o =
    expired_stays calls now later (record_usage t t' k) h o

-- A key that is not valid at one time is valid at no later time, whatever its methods are called in
-- between.
pub invalid_stays :
    (calls : List Call) (now later : ℕ) (k : ApiKey)
    → is_valid now k ≡ false
    → now ≤ later
    → is_valid later (apply_all calls k) ≡ false
unfolding is_valid
invalid_stays calls now later k h o = elim (Option-cases k.revoked_at) [
  | inl e ↦ expired_stays calls now later k (ground (arith, h, e)) o
  | inr (t, e) ↦ (revoked-valid calls t later k e).1
]

-- ===== src/Auth/Rotation.antt =====
-- `authenticate` of src/auth.rs when the provider has rotated its signing keys.
use vercel_ddns.Base.{ℕ, ◌+◌, ◌≡◌, true, false, if◌then◌else◌, leb, arith}
use vercel_ddns.Auth.{is_early}

is_early-minute : (now last : ℕ) → is_early now last ≡ (if leb (last + 60) now then false else true)
is_early-minute now last = ground arith

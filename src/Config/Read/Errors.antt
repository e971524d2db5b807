-- ===== src/Config/Read/Errors.antt =====
-- When reading a configuration fails, and with which error.
use gnosis_vpn_client.Prelude.{ℕ, ◌+◌, ◌*◌, ◌<◌, ◌≤◌, ◌/◌, ◌-◌, ◌%◌, some, ok, err, ◌≡◌, arith}
use gnosis_vpn_client.Config.Parts.{version_mismatch, Edge}
use gnosis_vpn_client.Config.Toml.{Table, Integer, nonnegative, negative, integer, get}
use gnosis_vpn_client.Config.Read.{File, read, read_version}

-- The versions that can be read.
abbrev pub IsSupported : Integer → Type 0
IsSupported (nonnegative n) = (3 ≤ n) × (n ≤ 6)
IsSupported (negative n) = ⊥

-- An integer as an integer: what is to be added to reach a multiple of 256.
abbrev pub IsCongruent : Integer → ℕ → Type 0
IsCongruent (nonnegative n) m = (k : ℕ) × (n ≡ 256 * k + m)
IsCongruent (negative n) m = (k : ℕ) × (n + 1 + m ≡ 256 * k)

read_version-unsupported :
    (l : Edge) (f : File) (t : Table) (n : Integer)
    → ¬ IsSupported n
    → (m : ℕ) × (m < 256) × IsCongruent n m × ((read_version l f t n).0 ≡ err (version_mismatch m))
unfolding read_version
read_version-unsupported l f t (nonnegative n) h =
    (n % 256, omega arith, (n / 256, omega arith), ground arith)
read_version-unsupported l f t (negative n) h =
    (255 - n % 256, omega arith, (n / 256 + 1, omega arith), ground arith)

-- A file that has a version other than 3 to 6 fails with the error that its version is not supported,
-- and the version that the error names is the one of the file modulo 256, which for a version such as
-- 259 is a supported one.
pub read-unsupported :
    (l : Edge) (f : File) (t : Table) (n : Integer)
    → f.contents ≡ ok tt
    → f.parsed ≡ ok t
    → get "version" t ≡ some (integer n)
    → ¬ IsSupported n
    → (m : ℕ) × (m < 256) × IsCongruent n m × ((read l f).0 ≡ err (version_mismatch m))
unfolding read
read-unsupported l f t n found parsed version h =
    rw (found) (rw (parsed) (rw (version) (read_version-unsupported l f t n h)))

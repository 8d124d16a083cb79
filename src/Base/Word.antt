-- ===== src/Base/Word.antt =====
-- Fixed-width words on a little-endian host, and the byte order conversions of <arpa/inet.h>.
use Prim.Native.Nat.{ℕ, zero, suc, ◌+◌, ◌*◌, ◌/◌, ◌%◌, ◌^◌, ◌<◌}
use mathlib.Core.Path.{◌≡◌, refl, ap₂}
use mathlib.Core.List.{List, [], ◌∷◌}
use native.Mathlib.Omega.{arith}
use na62_farm_lib_networking.Base.Lists.{length}

abbrev pub u8 : ℕ → ℕ
u8 n = n % 2 ^ 8

abbrev pub u16 : ℕ → ℕ
u16 n = n % 2 ^ 16

abbrev pub u32 : ℕ → ℕ
u32 n = n % 2 ^ 32

abbrev pub u64 : ℕ → ℕ
u64 n = n % 2 ^ 64

-- The two bytes of a word change places.
abbrev pub htons : ℕ → ℕ
htons v = v % 256 * 256 + v / 256 % 256

abbrev pub ntohs : ℕ → ℕ
ntohs v = htons v

abbrev pub htonl : ℕ → ℕ
htonl v = v % 256 * 2 ^ 24 + v / 2 ^ 8 % 256 * 2 ^ 16 + v / 2 ^ 16 % 256 * 2 ^ 8 + v / 2 ^ 24 % 256

-- What a word looks like in memory: its lowest byte first.
abbrev pub le_bytes : ℕ → ℕ → List ℕ
le_bytes zero v = []
le_bytes (suc k) v = v % 256 ∷ le_bytes k (v / 256)

-- A word in network order, as a protocol defines it.
abbrev pub be16 : ℕ → List ℕ
be16 v = v / 256 % 256 ∷ v % 256 ∷ []

abbrev pub be24 : ℕ → List ℕ
be24 v = v / 2 ^ 16 % 256 ∷ v / 256 % 256 ∷ v % 256 ∷ []

abbrev pub be32 : ℕ → List ℕ
be32 v = v / 2 ^ 24 % 256 ∷ v / 2 ^ 16 % 256 ∷ v / 256 % 256 ∷ v % 256 ∷ []

abbrev pub AreBytes : List ℕ → Type 0
AreBytes [] = Unit
AreBytes (b ∷ bs) = (b < 256) × AreBytes bs

pub le_bytes-AreBytes : (k v : ℕ) → AreBytes (le_bytes k v)
le_bytes-AreBytes zero v = tt
le_bytes-AreBytes (suc k) v = (omega arith, le_bytes-AreBytes k (v / 256))

pub htons_invol : (v : ℕ) → v < 2 ^ 16 → htons (htons v) ≡ v
htons_invol v h = omega arith

pub htons-lt : (v : ℕ) → htons v < 2 ^ 16
htons-lt v = omega arith

pub length-le_bytes : (k v : ℕ) → length (le_bytes k v) ≡ k
length-le_bytes zero v = refl
length-le_bytes (suc k) v = omega (arith, length-le_bytes k (v / 256))

-- Storing `htons v` puts `v` into memory in network order.
pub le_bytes-htons : (v : ℕ) → le_bytes 2 (htons v) ≡ be16 v
le_bytes-htons v = ap₂ ◌∷◌ (omega arith) (ap₂ ◌∷◌ (omega arith) refl)

pub le_bytes-htonl : (v : ℕ) → le_bytes 4 (htonl v) ≡ be32 v
le_bytes-htonl v =
    ap₂ ◌∷◌ (omega arith)
      (ap₂ ◌∷◌ (omega arith) (ap₂ ◌∷◌ (omega arith) (ap₂ ◌∷◌ (omega arith) refl)))

-- ===== src/Hash.antt =====
-- hash.go: the hash of the running binary, which is measured once.
use banyan_hub_sdk.Base.{All, String, ◌≡◌, refl, Option, none, some, List, [], ◌∷◌, arith}
use banyan_hub_sdk.Errors.{Error, wrap, Result, ok, err}
use banyan_hub_sdk.Errors.Api.{Bytes}
use banyan_hub_sdk.Platform.{Platform}

-- What the operating system answers when the binary is measured: its path, the opening of the file, and its
-- content.
pub record Executable : Type 0 where
  pub path : Result String
  pub open_file : String → Option Error
  pub content : String → Result Bytes

-- `binaryHashOnce`, with `binaryHashValue` and `binaryHashError` once it has run.
pub record HashCache : Type 0 where
  pub measured : Option (Result String)

abbrev pub new_hash_cache : HashCache
new_hash_cache = record { measured = none }

module _ (P : Platform) where
  read_executable : String → Option Error → Result Bytes → Result String
  read_executable path (some e) content = err (wrap "open executable" e)
  read_executable path none (err e) = err (wrap "calculate hash" e)
  read_executable path none (ok content) = ok (P.encode_hex (P.sha256 content))

  -- The function that `binaryHashOnce` runs.
  unfoldable pub measure_binary : Executable → Result String
  unfolding read_executable
  measure_binary X = elim X.path [
    | err e ↦ err (wrap "get executable path" e)
    | ok path ↦ read_executable path (X.open_file path) (X.content path)
  ]

  once : Executable → Option (Result String) → HashCache × Result String
  once X none = (record { measured = some (measure_binary X) }, measure_binary X)
  once X (some r) = (record { measured = some r }, r)

  -- `GetBinaryHash`
  unfoldable pub get_binary_hash : Executable → HashCache → HashCache × Result String
  unfolding once
  get_binary_hash X c = once X c.measured

  -- The answers of calls one after the other, each of which would find the binary as listed.
  abbrev pub get_all : List Executable → HashCache → List (Result String)
  get_all [] c = []
  get_all (X ∷ later_finds) c = let (d, r) = get_binary_hash X c in r ∷ get_all later_finds d

  known_lem :
      (X : Executable) (c : HashCache) (r : Result String)
      → c.measured ≡ some r
      → get_binary_hash X c ≡ (c, r)
  unfolding get_binary_hash once
  known_lem X c r h = ground (arith, h)

  answers_known :
      (finds : List Executable) (c : HashCache) (r : Result String)
      → c.measured ≡ some r
      → All (λ s. s ≡ r) (get_all finds c)
  answers_known [] c r h = tt
  answers_known (X ∷ finds) c r h = rw (known_lem X c r h) (refl, answers_known finds c r h)

  -- Until the cache is reset, every call of `GetBinaryHash` returns what the first one measured, an
  -- error too, whatever becomes of the binary.
  pub get_binary_hash_once :
      (X : Executable) (finds : List Executable)
      → All (λ s. s ≡ measure_binary X) (get_all (X ∷ finds) new_hash_cache)
  unfolding get_binary_hash once
  get_binary_hash_once X finds = (
    refl,
    answers_known finds (record { measured = some (measure_binary X) }) (measure_binary X) refl,
  )

-- `ResetBinaryHashCache`
unfoldable pub reset_binary_hash_cache : HashCache → HashCache
reset_binary_hash_cache c = new_hash_cache

-- ===== src/Store.antt =====
-- The persistent state store of state.go: an envelope that is signed with a key of this machine.
pub mod Laws
use banyan_hub_sdk.Base.{ℕ, String, ◌<>◌, Bool, false, not, Option, none, some, List, [], ◌∷◌}
use banyan_hub_sdk.Errors.{
  state_tampered, not_exist, Error, sentinel, wrap, Result, ok, err, ◌>>=◌, ◌>>◌, refuse_if,
  map_err,
}
use banyan_hub_sdk.Errors.Api.{Bytes}
use banyan_hub_sdk.Files.{Faults, no_faults, Files, write_file_atomic}
use banyan_hub_sdk.Platform.{Platform, bytes_equal}
use banyan_hub_sdk.Types.{PersistedState}

-- What identifies the installation: the slugs and the key of the configuration, and the machine id
-- of the fingerprint.
pub record Identity : Type 0 where
  pub license_key : String
  pub machine_id : String
  pub project_slug : String
  pub component_slug : String

-- `persistentStateStore` with the file state.bin. Each save consumes one entry of `faults`, the
-- answers of the operating system to it; where none is left, every call succeeds.
pub record Store : Type 0 where
  pub current : Option PersistedState
  pub files : Files
  pub faults : List Faults

-- `Snapshot` copies the state, the lease in it and its canonical bytes; values are copies here.
abbrev pub snapshot : Store → Option PersistedState
snapshot s = s.current

abbrev pub next_faults : List Faults → Faults
next_faults [] = no_faults
next_faults (f ∷ fs) = f

abbrev pub later_faults : List Faults → List Faults
later_faults [] = []
later_faults (f ∷ fs) = fs

read_state_file : Option Error → Option Bytes → Result Bytes
read_state_file (some e) target = err e
read_state_file none none = err (wrap "open state.bin" (sentinel not_exist))
read_state_file none (some content) = ok content

-- The end of `Save`: the state becomes the current one if the write succeeded.
install : PersistedState → Store → Files × Option Error → Store × Result (Unit {0})
install state s (files, some e) =
    (record s { files = files; faults = later_faults s.faults }, err e)
install state s (files, none) =
    (record s { current = some state; files = files; faults = later_faults s.faults }, ok tt)

make_dir_and_write : PersistedState → Bytes → Store → Option Error → Store × Result (Unit {0})
unfolding install
make_dir_and_write state content s (some e) = (record s { faults = later_faults s.faults }, err e)
make_dir_and_write state content s none =
    install state s (write_file_atomic (next_faults s.faults) content s.files)

save_encoded : PersistedState → Result Bytes → Store → Store × Result (Unit {0})
unfolding make_dir_and_write
save_encoded state (err e) s = (s, err e)
save_encoded state (ok content) s = make_dir_and_write state content s (next_faults s.faults).mkdir

-- The state with the time of its save.
abbrev pub stamped : Platform → ℕ → PersistedState → PersistedState
stamped P now state = record state { updated_at = P.format_time now }

module _ (P : Platform) (I : Identity) where
  -- `deriveStateKey`
  unfoldable pub derive_state_key : Result Bytes
  derive_state_key = map_err (wrap "derive state key") (
      P.hkdf (P.bytes_of I.machine_id) (P.bytes_of I.project_slug)
        (P.bytes_of (I.component_slug <> "|state")))

  -- `signPayload`
  unfoldable pub sign_payload : Bytes → Result String
  sign_payload payload = do key ← derive_state_key; ok (P.encode_base64 (P.hmac key payload))

  both_equal : Result Bytes → Result Bytes → Bool
  both_equal (ok a) (ok b) = bytes_equal a b
  both_equal (ok a) (err e) = false
  both_equal (err e) _ = false

  -- `verifySignature`
  unfoldable pub verify_state_signature : Bytes → String → Result Bool
  unfolding both_equal
  verify_state_signature payload signature = do
    expected ← sign_payload payload
    ok (both_equal (P.decode_base64 expected) (P.decode_base64 signature))

  -- The part of `Load` between the reading of the file and the update of the store.
  unfoldable pub decode_state_file : Bytes → Result PersistedState
  decode_state_file content = do
    envelope ← map_err (λ _. sentinel state_tampered) (P.unmarshal_envelope content)
    valid ← verify_state_signature envelope.payload envelope.signature
    refuse_if (not valid) (sentinel state_tampered)
    map_err (λ _. sentinel state_tampered) (P.unmarshal_state envelope.payload)

  keep_loaded : Store → Result PersistedState → Store × Result PersistedState
  keep_loaded s (ok state) = (record s { current = some state }, ok state)
  keep_loaded s (err e) = (s, err e)

  -- `Load`; the first argument is the error of `os.ReadFile` where it is not that the file is absent.
  unfoldable pub load : Option Error → Store → Store × Result PersistedState
  unfolding read_state_file keep_loaded
  load read_error s =
      keep_loaded s (read_state_file read_error s.files.target >>= decode_state_file)

  -- The bytes that `Save` writes.
  unfoldable pub encode_state_file : PersistedState → Result Bytes
  encode_state_file state = do
    payload ← P.marshal_state state
    signature ← sign_payload payload
    P.marshal_envelope (record { payload = payload; signature = signature })

  -- `Save`, at the time `now`.
  unfoldable pub save : ℕ → PersistedState → Store → Store × Result (Unit {0})
  unfolding save_encoded
  save now state s = save_encoded (stamped P now state) (encode_state_file (stamped P now state)) s

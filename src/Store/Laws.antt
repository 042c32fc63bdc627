-- ===== src/Store/Laws.antt =====
-- What is loaded was signed with the key of this machine, what is saved can be loaded again, and a
-- save that fails changes nothing.
use banyan_hub_sdk.Base.{
  ℕ, ◌≡◌, refl, sym, ap, ◌∙◌, true, false, Option, none, some, [], ◌∷◌, arith,
}
use banyan_hub_sdk.Errors.{state_tampered, Error, sentinel, Result, ok, err, map_err}
use banyan_hub_sdk.Errors.Api.{Bytes}
use banyan_hub_sdk.Files.{Files}
use banyan_hub_sdk.Files.Laws.{Replaces, write_file_atomic-Replaces}
use banyan_hub_sdk.Platform.{Platform, bytes_equal}
use banyan_hub_sdk.Store.{
  Identity, Store, next_faults, stamped, derive_state_key, sign_payload, verify_state_signature,
  decode_state_file, load, encode_state_file, save, read_state_file, install, make_dir_and_write,
  save_encoded, both_equal, keep_loaded,
}
use banyan_hub_sdk.Types.{PersistedState, Envelope}

bytes_equal_refl : (bs : Bytes) → bytes_equal bs bs ≡ true
unfolding bytes_equal
bytes_equal_refl [] = refl
bytes_equal_refl (b ∷ bs) = ground (arith, bytes_equal_refl bs)

bytes_equal→eq : (xs bs : Bytes) → bytes_equal xs bs ≡ true → xs ≡ bs
unfolding bytes_equal
bytes_equal→eq [] [] h = refl
bytes_equal→eq [] (b ∷ bs) h = cc
bytes_equal→eq (a ∷ xs) [] h = cc
bytes_equal→eq (a ∷ xs) (b ∷ bs) h = ground (arith, bytes_equal→eq xs bs)

module _ (P : Platform) (I : Identity) where
  -- The signature in an envelope is the MAC of its payload under the key of this machine.
  pub record IsAuthentic (content : Bytes) (state : PersistedState) : Type 0 where
    pub envelope : Envelope
    pub key : Bytes
    pub parsed : P.unmarshal_envelope content ≡ ok envelope
    pub derived : derive_state_key P I ≡ ok key
    pub signed :
        P.decode_base64 envelope.signature
        ≡ P.decode_base64 (P.encode_base64 (P.hmac key envelope.payload))
    pub holds : P.unmarshal_state envelope.payload ≡ ok state

  both_equal→eq : (x y : Result Bytes) → both_equal P I x y ≡ true → y ≡ x
  unfolding both_equal
  both_equal→eq (ok a) (ok b) h = ap ok (sym (bytes_equal→eq a b h))
  both_equal→eq (ok a) (err e) h = cc
  both_equal→eq (err e) y h = cc

  pub map_err-eq-ok {ℓ} :
      {A : Type ℓ} (f : Error → Error) (m : Result A) {a : A} → map_err f m ≡ ok a → m ≡ ok a
  map_err-eq-ok f (ok a) h = h
  map_err-eq-ok f (err e) h = cc

  decode_state_file_by_parts :
      (content : Bytes) {state : PersistedState} (u : Result Envelope) (d : Result Bytes)
      → P.unmarshal_envelope content ≡ u
      → derive_state_key P I ≡ d
      → decode_state_file P I content ≡ ok state
      → IsAuthentic content state
  unfolding decode_state_file verify_state_signature sign_payload
  decode_state_file_by_parts content (err e) d p q h = ground arith
  decode_state_file_by_parts content (ok envelope) (err e) p q h = ground arith
  decode_state_file_by_parts content (ok envelope) (ok key) p q h = record {
    envelope = envelope;
    key = key;
    parsed = p;
    derived = q;
    signed = both_equal→eq _ _ (ground arith);
    holds = map_err-eq-ok (λ _. sentinel state_tampered) _ (ground arith);
  }

  -- A state file that is accepted holds a state in an envelope that was signed with the key of this
  -- machine.
  pub decode_state_file-IsAuthentic :
      (content : Bytes) {state : PersistedState}
      → decode_state_file P I content ≡ ok state
      → IsAuthentic content state
  decode_state_file-IsAuthentic content h = decode_state_file_by_parts content _ _ refl refl h

-- What the store relies on in Go's encoders, for this state: what `json.Marshal` wrote and base64 encoded is
-- read back. The payload of an envelope is only one that `json.Marshal` wrote itself: such a text is
-- compact and escaped, so the marshalling of the envelope, which compacts and escapes a raw message, keeps
-- it.
pub record Decodes (P : Platform) (state : PersistedState) : Type 0 where
  pub state-decodes : (b : Bytes) → P.marshal_state state ≡ ok b → P.unmarshal_state b ≡ ok state
  pub envelope-decodes :
      (key payload b : Bytes)
      → P.marshal_state state ≡ ok payload
      → P.marshal_envelope
          (record { payload = payload; signature = P.encode_base64 (P.hmac key payload) })
        ≡ ok b
      → P.unmarshal_envelope b
        ≡ ok (record { payload = payload; signature = P.encode_base64 (P.hmac key payload) })
  pub base64-decodes :
      (key payload : Bytes)
      → P.decode_base64 (P.encode_base64 (P.hmac key payload)) ≡ ok (P.hmac key payload)

-- The files of a store can be replaced atomically: no Windows, and no temporary file lies about.
pub record IsReplaceable (s : Store) : Type 0 where
  pub not_windows : (next_faults s.faults).windows ≡ false
  pub no_temp : s.files.temp ≡ none

module _ (P : Platform) (I : Identity) where
  decode-encode_by_parts :
      (state : PersistedState)
      → Decodes P state
      → {content : Bytes} (u : Result Bytes) (d : Result Bytes) → P.marshal_state state ≡ u
      → derive_state_key P I ≡ d
      → encode_state_file P I state ≡ ok content
      → decode_state_file P I content ≡ ok state
  unfolding decode_state_file encode_state_file verify_state_signature sign_payload both_equal
  decode-encode_by_parts state D (err e) d p q h = ground arith
  decode-encode_by_parts state D (ok payload) (err e) p q h = ground arith
  decode-encode_by_parts state D {content} (ok payload) (ok key) p q h = ground (
    arith,
    D.state-decodes payload p,
    D.envelope-decodes key payload content p,
    D.base64-decodes key payload,
    bytes_equal_refl (P.hmac key payload),
  )

  pub decode-encode :
      (state : PersistedState)
      → Decodes P state
      → {content : Bytes} → encode_state_file P I state ≡ ok content
      → decode_state_file P I content ≡ ok state
  decode-encode state D h = decode-encode_by_parts state D _ _ refl refl h

module _ (P : Platform) (I : Identity) (now : ℕ) (state : PersistedState) (s : Store)
    (r : IsReplaceable s) where
  -- A save that succeeds wrote the encoded state and made it the current one.
  abbrev pub Saved : Store × Result (Unit {0}) → Type 0
  Saved (t, ok _) =
      (content : Bytes) × (encode_state_file P I (stamped P now state) ≡ ok content)
      × (t.files ≡ record { target = some content; temp = none })
      × (t.current ≡ some (stamped P now state))
  Saved (t, err e) = (t.current ≡ s.current) × (t.files.target ≡ s.files.target)

  install-Saved :
      (content : Bytes)
      → encode_state_file P I (stamped P now state) ≡ ok content
      → (w : Files × Option Error)
      → Replaces content s.files.target (next_faults s.faults).remove_temp w
      → Saved (install (stamped P now state) s w)
  unfolding install
  install-Saved content e (files, none) w = (content, e, w, refl)
  install-Saved content e (files, some x) w = (refl, w.0)

  make_dir_and_write-Saved :
      (content : Bytes)
      → encode_state_file P I (stamped P now state) ≡ ok content
      → (m : Option Error) → Saved (make_dir_and_write (stamped P now state) content s m)
  unfolding make_dir_and_write
  make_dir_and_write-Saved content e none =
      install-Saved content e _
        (write_file_atomic-Replaces (next_faults s.faults) content s.files r.not_windows r.no_temp)
  make_dir_and_write-Saved content e (some x) = (refl, refl)

  save_by_encoding :
      (c : Result Bytes)
      → encode_state_file P I (stamped P now state) ≡ c
      → Saved (save_encoded (stamped P now state) c s)
  unfolding save_encoded
  save_by_encoding (err e) h = (refl, refl)
  save_by_encoding (ok content) h = make_dir_and_write-Saved content h (next_faults s.faults).mkdir

  -- Off Windows and with no temporary file about: a save that reports success wrote a file which
  -- holds the encoded state, and made that state the current one; a save that reports an error left
  -- the current state and the file as they were.
  pub save-Saved : Saved (save P I now state s)
  unfolding save
  save-Saved = save_by_encoding _ refl

-- A save that reports success made the state the current one, whatever the system and the files.
install-current :
    (state : PersistedState) (s : Store) (w : Files × Option Error)
    → (install state s w).1 ≡ ok tt
    → (install state s w).0.current ≡ some state
unfolding install
install-current state s (files, none) h = refl
install-current state s (files, some e) h = cc

make_dir_and_write-current :
    (state : PersistedState) (content : Bytes) (s : Store) (m : Option Error)
    → (make_dir_and_write state content s m).1 ≡ ok tt
    → (make_dir_and_write state content s m).0.current ≡ some state
unfolding make_dir_and_write
make_dir_and_write-current state content s none h = install-current state s _ h
make_dir_and_write-current state content s (some e) h = cc

save_encoded-current :
    (state : PersistedState) (c : Result Bytes) (s : Store)
    → (save_encoded state c s).1 ≡ ok tt
    → (save_encoded state c s).0.current ≡ some state
unfolding save_encoded
save_encoded-current state (ok content) s h = make_dir_and_write-current state content s _ h
save_encoded-current state (err e) s h = cc

pub save-current :
    (P : Platform) (I : Identity) (now : ℕ) (state : PersistedState) (s : Store)
    → (save P I now state s).1 ≡ ok tt
    → (save P I now state s).0.current ≡ some (stamped P now state)
unfolding save
save-current P I now state s h = save_encoded-current (stamped P now state) _ s h

module _ (P : Platform) (I : Identity) where
  keep_loaded-current :
      (s : Store) (r : Result PersistedState) {t : Store} {state : PersistedState}
      → keep_loaded P I s r ≡ (t, ok state)
      → t.current ≡ some state
  unfolding keep_loaded
  keep_loaded-current s (ok st) e = ground arith
  keep_loaded-current s (err x) e = ground arith

  -- What was loaded is the current state.
  pub load-current :
      (read_error : Option Error) (s : Store) {t : Store} {state : PersistedState}
      → load P I read_error s ≡ (t, ok state)
      → t.current ≡ some state
  unfolding load
  load-current read_error s e = keep_loaded-current s _ e

  load_content :
      (t : Store) (content : Bytes) (state : PersistedState)
      → t.files.target ≡ some content
      → decode_state_file P I content ≡ ok state
      → load P I none t ≡ (record t { current = some state }, ok state)
  unfolding load read_state_file keep_loaded
  load_content t content state e d = rw (e, d)

  load_after_save :
      (now : ℕ) (state : PersistedState) (s t : Store) (r : IsReplaceable s)
      → Decodes P (stamped P now state)
      → (w : Store × Result (Unit {0})) → Saved P I now state s r w
      → w.1 ≡ ok tt
      → t.files.target ≡ w.0.files.target
      → load P I none t
        ≡ (record t { current = some (stamped P now state) }, ok (stamped P now state))
  load_after_save now state s t r D (u, err x) w h e = cc
  load_after_save now state s t r D (u, ok x) (content, enc, f, c) h e =
      load_content t content (stamped P now state) (e ∙ ap (λ (fs : Files). fs.target) f)
        (decode-encode P I (stamped P now state) D enc)

  -- A program that restarts on the file of a save that reported success, off Windows and with no
  -- temporary file about, loads the saved state, with the time of the save; the encoders are taken
  -- to read back what they wrote for this state.
  pub load-save :
      (now : ℕ) (state : PersistedState) (s t : Store)
      → IsReplaceable s
      → Decodes P (stamped P now state)
      → (save P I now state s).1 ≡ ok tt
      → t.files.target ≡ (save P I now state s).0.files.target
      → load P I none t
        ≡ (record t { current = some (stamped P now state) }, ok (stamped P now state))
  load-save now state s t r D h e =
      load_after_save now state s t r D (save P I now state s) (save-Saved P I now state s r) h e

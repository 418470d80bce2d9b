-- ===== src/Certificate/Outcome.antt =====
-- `initCertificationManager` of src/ssl/SSLCertificateHandler.cpp: how it ends.
use eventplus.Prelude.{
  ◌≡◌, refl, ◌⊎◌, inl, inr, pos, Bool, true, false, Option, none, some, Result, ok, err,
  length_error, aborted, Bool-cases, Option-cases, ◌>>=◌, arith, int_eq, ◌||◌, ◌&&◌, if◌then◌else◌,
}
use eventplus.Common.Details.{Bytes, Ptr}
use eventplus.Common.Ssl.{Ssl}
use eventplus.TcpHandler.{is_negative}
use eventplus.Certificate.{
  CertificateHandler, load_file, load_certificate, load_private_key, load_certificate_from_file,
  configure_ssl_context, create_certificate_context, init_certification_manager, is_some,
}

module _ {W : Type 0} where
  -- How the loading ends when the files open.
  abbrev pub Outcome : Result (Bool × CertificateHandler × W) → Type 0
  Outcome (ok (true, h, w)) =
      (is_some h.ssl_context ≡ true) × (is_some h.cert_file ≡ true) × (is_some h.key_file ≡ true)
  Outcome (ok (false, h, w)) =
      is_some h.ssl_context && is_some h.cert_file && is_some h.key_file ≡ false
  Outcome (err e) = e ≡ aborted

first_failure :
    {W : Type 0} (a b c : Bool) (w : W)
    → let r : Result W =
        if a then err aborted else if b then err aborted else if c then err aborted else ok w in
      ((w' : W) × (r ≡ ok w')) ⊎ (r ≡ err aborted)
first_failure true b c w = inr refl
first_failure false true c w = inr refl
first_failure false false true w = inr refl
first_failure false false false w = inl (w, refl)

module _ {W : Type 0} (ssl : Ssl W) where
  -- The size that `tellg` gives is -1 for a file that does not open.
  abbrev does_not_open : Bytes → W → Bool
  does_not_open name w = is_negative (ssl.read_file name w).0

  -- The world when the certificate has been read, where its file opens.
  abbrev after_certificate : Bytes → W → W
  after_certificate name w =
      let (size, content, w1) = ssl.read_file name w in
      elim content [ none ↦ w1 | some text ↦ (ssl.read_x509 text w1).1 ]

  -- There is a context, and one of the two files that are then read does not open.
  abbrev pub is_unreadable : CertificateHandler → W → Bool
  is_unreadable h w =
      let (context, w1) = ssl.ctx_new w in
      is_some context
      && (does_not_open h.certificate_file_name w1
          || does_not_open h.key_file_name (after_certificate h.certificate_file_name w1))

  load_file-opens :
      (parse : Bytes → W → Option Ptr × W) (name : Bytes) (w : W)
      → does_not_open name w ≡ false
      → (c : Option Ptr) × (load_file ssl parse name w
          ≡ ok (
            c,
            elim (ssl.read_file name w).1 [
              | none ↦ (ssl.read_file name w).2
              | some text ↦ (parse text (ssl.read_file name w).2).1
            ],
          ))
  unfolding load_file
  load_file-opens parse name w good = elim (Option-cases (ssl.read_file name w).1) [
    | inl e ↦ (none, rw (good, e) refl)
    | inr (text, e) ↦ ((parse text (ssl.read_file name w).2).0, rw (good, e) refl)
  ]

  configure_cases :
      (h : CertificateHandler) (w : W)
      → ((w' : W) × (configure_ssl_context ssl h w ≡ ok w'))
        ⊎ (configure_ssl_context ssl h w ≡ err aborted)
  unfolding configure_ssl_context
  configure_cases h w =
      let c = h.ssl_context in
      let w1 = (ssl.load_verify_locations c h.certificate_file_name h.key_file_name w).1 in
      let (used, w2) = ssl.use_certificate_file c h.certificate_file_name w1 in
      let (keyed, w3) = ssl.use_private_key_file c h.key_file_name w2 in
      let (checked, w4) = ssl.check_private_key c w3 in
      first_failure (is_negative used || int_eq used (pos 0))
        (is_negative keyed || int_eq keyed (pos 0)) (int_eq checked (pos 0))
        (ssl.set_verify_peer c 4 w4)

  loaded_cases :
      (h : CertificateHandler) (context c k : Option Ptr) (w : W)
      → is_some context ≡ true
      → let h' = record h { ssl_context = context; cert_file = c; key_file = k } in
        Outcome (
          if is_some c && is_some k
          then (configure_ssl_context ssl h' w >>= λ w'. ok (true, h', w'))
          else ok (false, h', w))
  loaded_cases h context c k w made = elim (Bool-cases (is_some c && is_some k)) [
    | inr missing ↦ rw missing (ground arith)
    | inl loaded ↦
        elim (configure_cases (record h { ssl_context = context; cert_file = c; key_file = k }) w) [
          | inr stops ↦ rw (loaded, stops) refl
          | inl (w', done) ↦ rw (loaded, done) (ground arith)
        ]
  ]

  -- `initCertificationManager` on every path. If there is a context, and the file of the
  -- certificate, or after it that of the key, does not open, it throws `length_error`. Otherwise it
  -- returns true with a context, a certificate and a key, or false with one of them missing, or it
  -- ends the program.
  pub init_certification_manager-Outcome :
      (h : CertificateHandler) (w : W)
      → if is_unreadable h w
        then (init_certification_manager ssl h w ≡ err length_error)
        else Outcome (init_certification_manager ssl h w)
  unfolding init_certification_manager create_certificate_context load_certificate_from_file
      load_certificate load_private_key
  init_certification_manager-Outcome h w =
      let (context, w1) = ssl.ctx_new w in
      let name = h.certificate_file_name in
      elim (Bool-cases (is_some context)) [
        | inr missing ↦ rw missing (ground arith)
        | inl made ↦ elim (Bool-cases (does_not_open name w1)) [
          | inl bad ↦ rw (made, bad) refl
          | inr good ↦
              let (c, e) = load_file-opens ssl.read_x509 name w1 good in
              let w2 = after_certificate name w1 in
              elim (Bool-cases (does_not_open h.key_file_name w2)) [
                | inl bad ↦ rw (made, e, good, bad) refl
                | inr fine ↦
                    let (k, e') = load_file-opens ssl.read_rsa h.key_file_name w2 fine in
                    rw (made, e, e', good, fine) (loaded_cases h context c k _ made)
              ]
        ]
      ]

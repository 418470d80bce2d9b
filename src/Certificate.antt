-- ===== src/Certificate.antt =====
-- src/ssl/SSLCertificateHandler.{h,cpp}: the context that new TLS connections come from.
pub mod Outcome
use eventplus.Prelude.{
  ℕ, [], ℤ, pos, negsuc, Bool, true, false, not, Option, none, some, Result, ok, err, ◌>>=◌,
  length_error, aborted, int_eq, ◌||◌, ◌&&◌, if◌then◌else◌,
}
use eventplus.Common.Details.{Bytes, Ptr}
use eventplus.Common.Ssl.{Ssl}
use eventplus.TcpHandler.{is_negative}

pub record CertificateHandler : Type 0 where
  pub certificate_file_name : Bytes
  pub key_file_name : Bytes
  pub ssl_context : Option Ptr
  pub cert_file : Option Ptr
  pub key_file : Option Ptr

unfoldable pub create_handler : CertificateHandler
create_handler = record {
  certificate_file_name = [];
  key_file_name = [];
  ssl_context = none;
  cert_file = none;
  key_file = none;
}

unfoldable pub set_certificate_and_key_file_name :
    Bytes → Bytes → CertificateHandler → CertificateHandler
set_certificate_and_key_file_name cert key h = record h {
  certificate_file_name = cert;
  key_file_name = key;
}

abbrev pub is_some {ℓ} : {A : Type ℓ} → Option A → Bool
is_some none = false
is_some (some a) = true

module _ {W : Type 0} (ssl : Ssl W) where
  unfoldable pub create_certificate_context : CertificateHandler → W → Bool × CertificateHandler × W
  create_certificate_context h w =
      let (context, w') = ssl.ctx_new w in (is_some context, record h { ssl_context = context }, w')

  -- `std::vector<char> buffer(size)` throws at the -1 of a file that did not open.
  unfoldable pub load_file : (Bytes → W → Option Ptr × W) → Bytes → W → Result (Option Ptr × W)
  load_file parse name w =
      let (size, content, w') = ssl.read_file name w in
      if is_negative size
      then err length_error
      else elim content [ none ↦ ok (none, w') | some text ↦ ok (parse text w') ]

  unfoldable pub load_certificate : Bytes → W → Result (Option Ptr × W)
  unfolding load_file
  load_certificate name w = load_file ssl.read_x509 name w

  unfoldable pub load_private_key : Bytes → W → Result (Option Ptr × W)
  unfolding load_file
  load_private_key name w = load_file ssl.read_rsa name w

  unfoldable pub load_certificate_from_file :
      Bytes → Bytes → CertificateHandler → W → Result (Bool × CertificateHandler × W)
  load_certificate_from_file cert key h w = do
    (c, w1) ← load_certificate cert w
    (k, w2) ← load_private_key key w1
    ok (is_some c && is_some k, record h { cert_file = c; key_file = k }, w2)

  -- `configureSSLContext` ends the program when the files do not fit: the `||` tries no further
  -- file after one that failed.
  unfoldable pub configure_ssl_context : CertificateHandler → W → Result W
  configure_ssl_context h w =
      let c = h.ssl_context in
      let w1 = (ssl.load_verify_locations c h.certificate_file_name h.key_file_name w).1 in
      let (used, w2) = ssl.use_certificate_file c h.certificate_file_name w1 in
      let (keyed, w3) = ssl.use_private_key_file c h.key_file_name w2 in
      let (checked, w4) = ssl.check_private_key c w3 in
      if is_negative used || int_eq used (pos 0)
      then err aborted
      else if is_negative keyed || int_eq keyed (pos 0)
      then err aborted
      else if int_eq checked (pos 0)
      then err aborted
      else ok (ssl.set_verify_peer c 4 w4)

  unfoldable pub init_certification_manager :
      CertificateHandler → W → Result (Bool × CertificateHandler × W)
  init_certification_manager h w =
      let (made, h1, w1) = create_certificate_context h w in
      let loading = do
        (loaded, h2, w2) ←
            load_certificate_from_file h1.certificate_file_name h1.key_file_name h1 w1
        let configured = configure_ssl_context h2 w2 >>= λ w3. ok (true, h2, w3)
        if loaded then configured else ok (false, h2, w2)
      in if made then loading else ok (false, h1, w1)

  -- The destructor.
  unfoldable pub destroy_handler : CertificateHandler → W → W
  destroy_handler h w = elim h.ssl_context [ none ↦ w | some ctx ↦ ssl.ctx_free ctx w ]

  unfoldable pub get_new_certificate : CertificateHandler → W → Option Ptr × W
  get_new_certificate h w = ssl.new h.ssl_context w

-- ===== src/Common/Ssl.antt =====
-- The calls of the OpenSSL library that the program makes, a parameter like those of the operating
-- system. An `SSL*`, an `SSL_CTX*`, a certificate and a key are addresses.
use eventplus.Prelude.{ℕ, ℤ, Option}
use eventplus.Common.Details.{Bytes, Ptr}

-- The values of `SSL_get_error` that the program tells apart.
abbrev pub ssl_error_want_read : ℕ
ssl_error_want_read = 2

abbrev pub ssl_error_want_write : ℕ
ssl_error_want_write = 3

abbrev pub ssl_error_zero_return : ℕ
ssl_error_zero_return = 6

pub record Ssl (W : Type 0) : Type 0 where
  pub ctx_new : W → Option Ptr × W
  pub client_ctx_new : W → Option Ptr × W
  pub load_verify_locations : Option Ptr → Bytes → Bytes → W → ℤ × W
  pub use_certificate_file : Option Ptr → Bytes → W → ℤ × W
  pub use_private_key_file : Option Ptr → Bytes → W → ℤ × W
  pub check_private_key : Option Ptr → W → ℤ × W
  pub set_verify_peer : Option Ptr → ℕ → W → W
  -- An opened file: its size as `tellg` tells it, and its bytes, if they can be read.
  pub read_file : Bytes → W → ℤ × Option Bytes × W
  pub read_x509 : Bytes → W → Option Ptr × W
  pub read_rsa : Bytes → W → Option Ptr × W
  pub new : Option Ptr → W → Option Ptr × W
  pub ctx_free : Ptr → W → W
  pub set_fd : Ptr → ℤ → W → W
  pub accept : Ptr → W → ℤ × W
  pub connect : Ptr → W → ℤ × W
  pub get_error : Ptr → ℤ → W → ℕ × W
  pub write : Ptr → Bytes → W → ℤ × W
  -- with the bytes stored at the start of the buffer
  pub read : Ptr → ℕ → W → ℤ × Bytes × W
  pub shutdown : Ptr → W → ℤ × W
  pub free : Ptr → W → W

-- ===== src/Security/Sample.antt =====
-- Settings that are not set, and certificates as texts, for the tests.
use Prim.Native.String.{String}
use strimzi_canary.Common.{Bool, false, List, [], ◌∷◌, Option, none, some, if◌then◌else◌, value}
use strimzi_canary.Common.Maps.{str_eq}
use strimzi_canary.Security.{Sasl, Certificates}

abbrev pub unset : Sasl
unset = record {
  enable = false;
  handshake_v1 = false;
  mechanism = "";
  user = "";
  password = "";
  scram = none;
}

-- "ca.crt" is a file, "broken" no certificate; a pool is the list of what was appended.
abbrev pub contents : String → String
contents path = if str_eq path "ca.crt" then "authority" else path

abbrev pub appended : List String → String → Option (List String)
appended pool text = if str_eq text "broken" then none else some (text ∷ pool)

abbrev pub files : Certificates
files = record {
  E = Bool;
  Bytes = String;
  Pool = List String;
  Certificate = String × String;
  is_file = λ s. str_eq s "ca.crt";
  read_file = λ s. value (contents s);
  bytes_of = λ s. s;
  system_cert_pool = none;
  new_cert_pool = [];
  append_certs_from_pem = appended;
  x509_key_pair = λ c k. value (c, k);
}

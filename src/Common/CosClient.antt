-- ===== src/Common/CosClient.antt =====
-- drop/common/COSClient.h and COSClient.cpp: uploads by the `mc` command. What becomes of a command
-- that is started is the argument `run`. A method gives `none` for true, and for false the text that
-- it leaves in `*err_msg`; then what it logged.
pub mod Uploads
use Prim.Native.String.{◌++◌}
use mini_drop.Base.{
  ℕ, String, Bool, true, false, if◌then◌else◌, ◌==◌, Option, none, some, List, [], ◌∷◌,
}
use mini_drop.Base.Int.{ℤ, pos, negsuc, int_eq}
use mini_drop.Base.Decimal.{to_string_ℤ}
use mini_drop.Common.Log.{info, error}
use mini_drop.Common.Effect.{Effect, log}

-- The outcome of `fork`, `execvp` and `waitpid`; where `execvp` fails the child exits with 127.
pub data Child : Type 0 where
  fork_error : String → Child
  exited : ℕ → Child
  killed : Child

pub record CosClient : Type 0 where
  pub endpoint : String
  pub access_key : String
  pub secret_key : String
  pub bucket : String
  pub use_ssl : Bool

-- The constructor.
unfoldable pub new_cos_client : String → String → String → String → Bool → CosClient
new_cos_client endpoint access_key secret_key bucket use_ssl = record {
  endpoint = endpoint;
  access_key = access_key;
  secret_key = secret_key;
  bucket = bucket;
  use_ssl = use_ssl;
}

abbrev pub alias : String
alias = "drop_minio"

abbrev pub child_code : Child → ℤ × List Effect
child_code (fork_error message) =
    (negsuc 0, log error ("COSClient::RunCommand: fork failed: " ++ message) ∷ [])
child_code (exited code) = (pos code, [])
child_code killed = (negsuc 0, [])

unfoldable pub run_command : (List String → Child) → List String → ℤ × List Effect
run_command run [] = (negsuc 0, [])
run_command run (file ∷ args) = child_code (run (file ∷ args))

unfoldable pub alias_url : CosClient → String
alias_url cos = (if cos.use_ssl then "https://" else "http://") ++ cos.endpoint

unfoldable pub alias_args : CosClient → List String
unfolding alias_url
alias_args cos =
    "mc"
    ∷ "alias"
    ∷ "set"
    ∷ alias
    ∷ alias_url cos
    ∷ cos.access_key
    ∷ cos.secret_key
    ∷ "--api"
    ∷ "s3v4"
    ∷ []

abbrev push_log : List Effect → Effect → List Effect
push_log [] e = e ∷ []
push_log (x ∷ xs) e = x ∷ push_log xs e

unfoldable pub init_error : ℤ → String
init_error ret =
    "mc alias set failed with code "
    ++ (to_string_ℤ ret ++ "; ensure mc is installed and reachable")

unfoldable pub init : (List String → Child) → CosClient → Option String × List Effect
unfolding run_command alias_args init_error
init run cos =
    let (ret, logs) = run_command run (alias_args cos) in
    if ret == pos 0
    then (none, push_log logs (log info ("COSClient::Init: mc alias set to " ++ alias_url cos)))
    else (some (init_error ret), push_log logs (log error ("COSClient::Init: " ++ init_error ret)))

unfoldable pub put_dest : CosClient → String → String
put_dest cos cos_key = alias ++ ("/" ++ (cos.bucket ++ ("/" ++ cos_key)))

unfoldable pub put_error : ℤ → String → String → String
put_error ret local_path dest =
    "mc cp failed with code "
    ++ (to_string_ℤ ret ++ (" (src=" ++ (local_path ++ (" dst=" ++ (dest ++ ")")))))

unfoldable pub put_file :
    (List String → Child) → CosClient → String → String → Option String × List Effect
unfolding run_command put_dest put_error
put_file run cos local_path cos_key =
    let dest = put_dest cos cos_key in
    let (ret, logs) = run_command run ("mc" ∷ "cp" ∷ local_path ∷ dest ∷ []) in
    let start = log info ("COSClient::PutFile: " ++ (local_path ++ (" -> " ++ dest))) in
    if ret == pos 0
    then (
      none,
      start ∷ push_log logs (log info ("COSClient::PutFile: upload done, cos_key=" ++ cos_key)),
    )
    else (
      some (put_error ret local_path dest),
      start ∷ push_log logs (log error ("COSClient::PutFile: " ++ put_error ret local_path dest)),
    )

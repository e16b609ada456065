-- ===== src/Admin/Routes/Tests.antt =====
-- An administrator logs in and reloads the configuration.
use rust_socksd.Prelude.{
  ℕ, ◌+◌, ◌*◌, ◌≡◌, ◌≢◌, ◌⊎◌, ◌∙◌, refl, sym, ap, arith, Bool, true, false, ◌&&◌, List, [], ◌∷◌,
  none, some, Bytes, lit, ok, err, eq_bytes, is_empty, any,
}
use rust_socksd.Text.{
  Unicode, from_utf8, split_whitespace, trim, split_once, to_lowercase, to_uppercase, strip_prefix,
  contains_byte,
}
use rust_socksd.Map.{lookup, insert, retain, bytes_key}
use rust_socksd.Metrics
use rust_socksd.Auth.{Authenticator}
use rust_socksd.Config.{Config, default_config}
use rust_socksd.Stream.{Conn, conn}
use rust_socksd.RateLimit.{second}
use rust_socksd.Config.Validate
use rust_socksd.Net.{parse_ip}
use rust_socksd.Files.{read_to_string, load_config}
use rust_socksd.Backend.{Backends, create_authenticator}
use rust_socksd.Admin.{AdminRequest, read_request, parse_basic_auth, authenticate_request}
use rust_socksd.Admin.Mask.{null}
use rust_socksd.Admin.Tokens.{TokenInfo, create, generate_token, validate_token}
use rust_socksd.Admin.Tokens.Issued.{answers, promised, answers-promised}
use rust_socksd.Admin.Tokens.History.{login, present, Ask}
use rust_socksd.Admin.Endpoints.{Setting, AdminState}
use rust_socksd.Admin.Routes.{handle_admin_connection}
use rust_socksd.Admin.Routes.Reload.{Authorised, reload_sound}
use rust_socksd.Admin.Routes.Grants.{LoggedIn}
use rust_socksd.Admin.Routes.Logins.{token_earned}

instance abbrev unicode : Unicode
unicode = record { lower = λ s. s; upper = λ s. s }

abbrev asks : List (Ask × ℕ)
asks =
    (login (lit "t1") (lit "al"), 5)
    ∷ (present (lit "t1"), 7)
    ∷ (present (lit "t1"), 5 + 3600 * second)
    ∷ []

answered : answers asks (create 3600) ≡ ok (some (lit "t1")) ∷ ok (some (lit "al")) ∷ ok none ∷ []
unfolding answers insert lookup eq_bytes generate_token validate_token retain
answered = refl

answers-promised_example : answers asks (create 3600) ≡ promised (3600 * second) asks []
answers-promised_example =
    answers-promised 3600 asks (omega arith, (omega arith, (omega arith, tt)))

abbrev config : Config
config = record default_config {
  admin = record (default_config.admin) { token = some (lit "s"); admin_users = lit "u" ∷ [] };
}

abbrev new_config : Config
new_config = record config {
  security = record (config.security) { blocked_domains = lit "evil.com" ∷ [] };
}

abbrev backends : Backends
backends = record {
  yaml = record {
    config_from_str = λ s. ok new_config;
    users_from_str = λ s. err [];
    users_to_string = λ users. err [];
  };
  hashing = record { hash = λ seed t password. err []; verify = λ t password hash. false };
  directory = record {
    connect = λ url. err [];
    simple_bind = λ log dn password. err [];
    search = λ log base filter. err [];
  };
  drivers = record { mysql_connect = λ url. err []; postgres_connect = λ url. err [] };
  pam_library = record { with_password = λ service. err []; spawn_blocking = λ r. ok r };
}

abbrev setting : Setting
setting = record {
  backends = backends;
  formats = record {
    to_value = λ config. ok null;
    to_string = λ value. [];
    to_string_pretty = λ value. ok [];
    decode = λ s. some s;
    lossy = λ s. s;
  };
  disk = record {
    files = (lit "c", lit "x") ∷ [];
    visible = λ path. true;
    readable = λ path. true;
    writable = λ path. false;
    room = λ path. 0;
  };
  config_path = lit "c";
  new_token = lit "fresh";
  now = 9;
}

abbrev backend : Authenticator
backend = record { authenticate = λ u p. ok (eq_bytes u (lit "u") && eq_bytes p (lit "p")) }

abbrev state : AdminState
state = record {
  server = record { config = config; authenticator = some backend };
  store = create 60;
}

abbrev client : Bytes → Conn
client input = conn input [] 9 Metrics.create

abbrev reload_request : Conn
reload_request = client (lit "POST /config/reload HTTP/1.1\r\nAuthorization: Bearer s\r\n\r\n")

abbrev login_request : Conn
login_request = client (lit "POST /login HTTP/1.1\r\nAuthorization: Basic u:p\r\n\r\n")

logs_in :
    lookup (lit "fresh") (handle_admin_connection setting state login_request).1.store.tokens
    ≡ some (record { username = lit "u"; expires_at = 9 + 60 * second })
unfolding handle_admin_connection read_request lookup from_utf8 split_whitespace trim split_once
    insert eq_bytes to_lowercase to_uppercase parse_basic_auth strip_prefix any generate_token
logs_in = refl

reloads : (handle_admin_connection setting state reload_request).1.server.config ≡ new_config
unfolding handle_admin_connection read_request lookup from_utf8 split_whitespace trim split_once
    insert eq_bytes to_lowercase to_uppercase strip_prefix authenticate_request load_config
    read_to_string Validate.validate parse_ip any is_empty create_authenticator contains_byte
reloads = refl

abbrev reload_after : AdminState
reload_after = (handle_admin_connection setting state reload_request).1

abbrev unblocked : Config → Bool
unblocked config = is_empty config.security.blocked_domains

moves : reload_after.server ≢ state.server
unfolding is_empty
moves h = cc (sym (ap unblocked reloads) ∙ ap (λ s. unblocked s.config) h)

reload_sound_example :
    (req : AdminRequest) × ((read_request reload_request).0 ≡ ok req)
    × Authorised setting state req reload_after.server
reload_sound_example = reload_sound setting state reload_request moves

abbrev fresh : TokenInfo
fresh = record { username = lit "u"; expires_at = 9 + 60 * second }

token_earned_example :
    (lookup (lit "fresh") state.store.tokens ≡ some fresh)
    ⊎ ((req : AdminRequest) × ((read_request login_request).0 ≡ ok req)
        × LoggedIn setting state req (lit "fresh") fresh)
token_earned_example = token_earned setting state login_request (lit "fresh") fresh tt logs_in

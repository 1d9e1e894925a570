-- ===== src/Api/Login.antt =====
-- The limit on logins and the login, internal/api/login.go.
use scuttlebot.Common.{
  ℕ, ◌+◌, ◌*◌, Text, bytes, text_eq, List, [], ◌∷◌, ◌++◌, Bool, ◌&&◌, ◌||◌, not, Option, none, some,
  ok, err, if◌then◌else◌, leb, ◌==◌, length,
}
use scuttlebot.Common.Dict
use scuttlebot.Common.Dict.{Dict}
use scuttlebot.Common.Windows.{within}
use scuttlebot.Auth.ApiKeys.{KeyStore, Fresh, create, scope_admin}
use scuttlebot.Auth.Admins.{AdminStore, Supplied, authenticate, add, remove, set_password}
use scuttlebot.Api.Access.{Response, write_error, write_json}

-- loginRateLimiter: the times of the attempts of each address.
pub record LoginRateLimiter : Type 0 where
  pub windows : Dict (List ℕ)

abbrev pub minute : ℕ
minute = 60_000_000_000

abbrev pub max_attempts : ℕ
max_attempts = 10

-- newLoginRateLimiter
abbrev pub new_login_rate_limiter : LoginRateLimiter
new_login_rate_limiter = record { windows = [] }

unfoldable pub attempts_of : LoginRateLimiter → Text → List ℕ
attempts_of rl ip = elim (Dict.get rl.windows ip) [ none ↦ [] | some ts ↦ ts ]

-- Allow
unfoldable pub allow : Text → ℕ → LoginRateLimiter → Bool × LoginRateLimiter
unfolding attempts_of
allow ip now rl =
    let kept = within now minute (attempts_of rl ip) ++ (now ∷ []) in
    (leb (length kept) max_attempts, record { windows = Dict.put rl.windows ip kept })

-- The text before the last byte of this kind, if it has one.
unfoldable pub before_last : ℕ → Text → Option Text
before_last sep [] = none
before_last sep (c ∷ s) = elim (before_last sep s) [
  | some t ↦ some (c ∷ t)
  | none ↦ if c == sep then some [] else none
]

-- clientIP
unfoldable pub client_ip : Text → Text
unfolding before_last
client_ip remote_addr = elim (before_last 58 remote_addr) [ none ↦ remote_addr | some host ↦ host ]

pub record Credentials : Type 0 where
  pub username : Text
  pub password : Text

pub record Session : Type 0 where
  pub token : Text
  pub username : Text

-- The parts of the server that a login reads and changes; `admins` is `none` where no admins are set up.
pub record LoginState : Type 0 where
  pub admins : Option AdminStore
  pub login_rl : LoginRateLimiter
  pub api_keys : KeyStore

abbrev pub session_lifetime : ℕ
session_lifetime = 24 * 60 * minute

-- handleLogin, with the hash of tokens and the test of passwords
unfoldable pub handle_login :
    (Text → Text)
    → (Text → Text → Bool)
    → Fresh
    → Text
    → Option Credentials
    → LoginState
    → Response Session × LoginState
unfolding client_ip allow
handle_login hash matches o remote_addr body s = elim s.admins [
  | none ↦ (write_error 404 (bytes "admin authentication not configured"), s)
  | some admins ↦
      let (allowed, rl) = allow (client_ip remote_addr) o.now s.login_rl in
      let s' = record s { login_rl = rl } in
      if not allowed then (write_error 429 (bytes "too many login attempts"), s') else (elim body [
        | none ↦ (write_error 400 (bytes "invalid request body"), s')
        | some req ↦
            if not (authenticate matches req.username req.password admins)
            then (write_error 401 (bytes "invalid credentials"), s')
            else let (created, keys) =
                create hash o (bytes "session:" ++ req.username) (scope_admin ∷ [])
                  (o.now + session_lifetime) [] s.api_keys in
              elim created [
                | err _ ↦ (
                  write_error 500 (bytes "failed to create session"),
                  record s' { api_keys = keys },
                )
                | ok made ↦ (
                  write_json 200 (record { token = made.0; username = req.username }),
                  record s' { api_keys = keys },
                )
              ]
      ])
]

-- handleDevToken, without the optional name of the user: the token and the mode
unfoldable pub handle_dev_token :
    (Text → Text) → Bool → Bool → Fresh → KeyStore → Response (Text × Text) × KeyStore
handle_dev_token hash no_auth_mode show_token o keys =
    if not no_auth_mode && not show_token
    then (write_error 404 (bytes "not available"), keys)
    else let (created, keys') =
        create hash o (bytes "dev-session") (scope_admin ∷ []) (o.now + session_lifetime) [] keys in
      elim created [
        | err _ ↦ (write_error 500 (bytes "failed to create session"), keys')
        | ok made ↦ (
          write_json 200 (made.0, if no_auth_mode then bytes "no_auth" else bytes "show_token"),
          keys',
        )
      ]

-- handleAdminAdd
unfoldable pub handle_admin_add :
    Supplied → Option Credentials → AdminStore → Response (Unit {0}) × AdminStore
handle_admin_add o body s = elim body [
  | none ↦ (write_error 400 (bytes "invalid request body"), s)
  | some req ↦
      if text_eq req.username [] || text_eq req.password []
      then (write_error 400 (bytes "username and password required"), s)
      else let (added, s') = add o req.username s in
        elim added [
          | err _ ↦ (write_error 409 (bytes "username already exists"), s')
          | ok _ ↦ (write_json 201 tt, s')
        ]
]

-- handleAdminRemove
unfoldable pub handle_admin_remove : Supplied → Text → AdminStore → Response (Unit {0}) × AdminStore
handle_admin_remove o username s =
    let (removed, s') = remove o username s in
    elim removed [
      | err _ ↦ (write_error 404 (bytes "admin not found"), s')
      | ok _ ↦ (write_json 204 tt, s')
    ]

-- handleAdminSetPassword
unfoldable pub handle_admin_set_password :
    Supplied → Text → Option Text → AdminStore → Response (Unit {0}) × AdminStore
handle_admin_set_password o username body s = elim body [
  | none ↦ (write_error 400 (bytes "invalid request body"), s)
  | some password ↦
      if text_eq password []
      then (write_error 400 (bytes "password required"), s)
      else let (set, s') = set_password o username s in
        elim set [
          | err _ ↦ (write_error 404 (bytes "admin not found"), s')
          | ok _ ↦ (write_json 204 tt, s')
        ]
]

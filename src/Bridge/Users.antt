-- ===== src/Bridge/Users.antt =====
-- Who is shown in a channel: internal/bots/bridge/bridge.go, the cache of NAMES replies and the users of
-- the web interface, and sending on their behalf.
use scuttlebot.Common.{
  drop, take, positive?, index_of, ℤ, has_prefix, fields, map, ℕ, ◌+◌, Text, bytes, text_eq, List,
  [], ◌∷◌, ◌++◌, Bool, true, false, ◌&&◌, ◌||◌, not, Option, none, some, if◌then◌else◌, ltb, length,
}
use scuttlebot.Common.Dict
use scuttlebot.Common.Dict.{Dict}
use scuttlebot.Bridge.Hub.{Bridge, Meta, Message, dispatch_message, default_web_user_ttl}

-- SetWebUserTTL
unfoldable pub set_web_user_ttl : ℤ → Bridge → Bridge
set_web_user_ttl ttl b = record b {
  web_user_ttl = elim (positive? ttl) [ none ↦ default_web_user_ttl | some n ↦ n ];
}

unfoldable pub names_of : Text → Bridge → Dict Text
names_of channel b = elim (Dict.get b.names_users channel) [ none ↦ [] | some d ↦ d ]

unfoldable pub web_users_of : Text → Bridge → Dict ℕ
web_users_of channel b = elim (Dict.get b.web_users channel) [ none ↦ [] | some d ↦ d ]

-- TouchUser
unfoldable pub touch_user : Text → Text → ℕ → Bridge → Bridge
unfolding web_users_of
touch_user channel nick now b = if text_eq nick [] then b else record b {
  web_users = Dict.put b.web_users channel (Dict.put (web_users_of channel b) nick now);
}

-- The text before the first "!", and all of it where there is none.
unfoldable pub before_bang : Text → Text
before_bang name = elim (index_of name (bytes "!")) [ none ↦ name | some i ↦ take i name ]

-- One name of a reply to NAMES: the prefix, and the nick.
unfoldable pub parse_name : Text → Text × Text
unfolding before_bang
parse_name name =
    if has_prefix name (bytes "@")
    then (bytes "@", before_bang (drop 1 name))
    else if has_prefix name (bytes "+")
    then (bytes "+", before_bang (drop 1 name))
    else ([], before_bang name)

unfoldable pub note_name : Text → Dict Text → Text → Dict Text
unfolding parse_name
note_name self d name =
    let (prefix, nick) = parse_name name in
    if text_eq nick [] || text_eq nick self then d else Dict.put d nick prefix

unfoldable pub note_names : Text → Dict Text → List Text → Dict Text
unfolding note_name
note_names self d [] = d
note_names self d (name ∷ names) = note_names self (note_name self d name) names

-- The handler of RPL_NAMREPLY.
unfoldable pub on_names : Text → Text → Bridge → Bridge
unfolding note_names names_of
on_names channel line b = record b {
  names_users =
      Dict.put b.names_users channel (note_names b.nick (names_of channel b) (fields line));
}

-- The web users that are left after the expired ones are deleted. A user that was last seen at the
-- cutoff is expired.
unfoldable pub unexpired : ℕ → ℕ → Dict ℕ → Dict ℕ
unexpired now ttl [] = []
unexpired now ttl ((nick, last) ∷ rest) =
    let others = unexpired now ttl rest in
    if ltb now (last + ttl) then (nick, last) ∷ others else others

unfoldable pub prune_users : Text → ℕ → Bridge → Bridge
unfolding unexpired
prune_users channel now b = elim (Dict.get b.web_users channel) [
  | none ↦ b
  | some d ↦ record b { web_users = Dict.put b.web_users channel (unexpired now b.web_user_ttl d) }
]

-- The web users that the cache of names does not have.
unfoldable pub unseen : Dict Text → Dict ℕ → List Text
unseen names [] = []
unseen names ((nick, last) ∷ rest) =
    let others = unseen names rest in
    elim (Dict.get names nick) [ some _ ↦ others | none ↦ nick ∷ others ]

-- Users
unfoldable pub users : Text → ℕ → Bridge → List Text × Bridge
unfolding unexpired unseen prune_users names_of web_users_of
users channel now b = (
  map (λ e. e.0) (names_of channel b)
      ++ unseen (names_of channel b) (unexpired now b.web_user_ttl (web_users_of channel b)),
  prune_users channel now b,
)

pub record UserInfo : Type 0 where
  pub nick : Text
  pub modes : List Text

unfoldable pub user_info : Text × Text → UserInfo
user_info (nick, prefix) = record {
  nick = nick;
  modes =
      if text_eq prefix (bytes "@")
      then bytes "o" ∷ []
      else if text_eq prefix (bytes "+")
      then bytes "v" ∷ []
      else [];
}

-- UsersWithModes
unfoldable pub users_with_modes : Text → ℕ → Bridge → List UserInfo × Bridge
unfolding unexpired unseen prune_users names_of web_users_of user_info
users_with_modes channel now b = (
  map user_info (names_of channel b)
      ++ map (λ nick. record { nick = nick; modes = [] })
          (unseen (names_of channel b) (unexpired now b.web_user_ttl (web_users_of channel b))),
  prune_users channel now b,
)

pub record Stats : Type 0 where
  pub channels : ℕ
  pub messages_total : ℕ
  pub active_subs : ℕ

unfoldable pub count_subs : {A : Type 0} → Dict (List A) → ℕ
count_subs [] = 0
count_subs ((channel, ss) ∷ rest) = length ss + count_subs rest

-- Stats
unfoldable pub stats : Bridge → Stats
unfolding count_subs
stats b = record {
  channels = length b.joined;
  messages_total = b.msg_total;
  active_subs = count_subs b.subs;
}

-- The tag that SendWithMeta puts before a line.
unfoldable pub tag_prefix : Option Meta → Text
tag_prefix none = []
tag_prefix (some m) =
    if text_eq m.type [] then [] else bytes "@+scuttlebot/meta-type=" ++ (m.type ++ bytes " ")

-- The line that SendWithMeta sends. What girc sends for a call of Message is written out.
unfoldable pub irc_line : Bridge → Text → Text → Text → Option Meta → Text
unfolding tag_prefix
irc_line b channel text sender meta =
    if not (text_eq sender []) && not (text_eq b.relay_sep [])
    then tag_prefix meta
      ++ (bytes "RELAYMSG " ++ (channel ++ (bytes " " ++ (sender ++ (bytes " :" ++ text)))))
    else tag_prefix meta
      ++ (bytes "PRIVMSG "
          ++ (channel
              ++ (bytes " :"
                  ++ (if text_eq sender [] then text else 91 ∷ (sender ++ (bytes "] " ++ text))))))

unfoldable pub sent_message : Bridge → ℕ → Text → Text → Text → Option Meta → Message
sent_message b now channel text sender meta = record {
  at = now;
  channel = channel;
  nick = if text_eq sender [] then b.nick else sender;
  text = text;
  msg_id = [];
  meta = meta;
}

-- SendWithMeta: whether there was a connection, and the state.
unfoldable pub send_with_meta : Text → Text → Text → Option Meta → ℕ → Bridge → Bool × Bridge
unfolding irc_line touch_user sent_message
send_with_meta channel text sender meta now b = if not b.is_connected then (false, b) else (
  true,
  dispatch_message (sent_message b now channel text sender meta) (
      touch_user channel sender now
        (record b { sent = irc_line b channel text sender meta ∷ b.sent })),
)

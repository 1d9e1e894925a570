-- ===== src/CmdParse/Dispatch/Targets.antt =====
-- Where replies go, and which messages are answered.
use scuttlebot.Common.{
  trim_space, drop, has_prefix, Text, bytes, [], true, false, none, some, ◌≡◌, arith, if◌then◌else◌,
}
use scuttlebot.CmdParse.Router.{
  reply_target, Context, unknown_reply, greet_reply, help_reply, Router, Reply,
}
use scuttlebot.CmdParse.Dispatch.{
  strip_address, drop, trim_space, reply_target, Context, unknown_reply, greet_reply, help_reply,
  has_prefix, dispatch_from, execute, run_line, command_line, is_addressed,
}

execute_target :
    (r : Router) (ctx : Context) (line : Text) {reply : Reply}
    → execute r ctx line ≡ some reply
    → reply.target ≡ reply_target ctx
unfolding execute help_reply greet_reply unknown_reply
execute_target r ctx line h = ground arith

run_line_target :
    (r : Router) (ctx : Context) (line : Text) {reply : Reply}
    → run_line r (some (ctx, line)) ≡ some reply
    → reply.target ≡ reply_target ctx
unfolding run_line
run_line_target r ctx line {reply} h =
    ground (arith, execute_target r ctx (trim_space line) {reply = reply})

-- A reply to a message in a channel goes to that channel, and a reply to a direct message to the nick
-- that counts as its sender.
pub dispatch_from_target :
    (r : Router) (nick target text : Text) {reply : Reply}
    → dispatch_from r nick target text ≡ some reply
    → reply.target ≡ (if has_prefix target (bytes "#") then target else nick)
unfolding dispatch_from command_line reply_target
dispatch_from_target r nick target text {reply} h = ground (
  arith,
  run_line_target r (record { nick = nick; channel = []; is_dm = true }) text {reply = reply},
  run_line_target r (record { nick = nick; channel = target; is_dm = false }) (drop 1 text)
      {reply = reply},
  run_line_target r (record { nick = nick; channel = target; is_dm = false }) (strip_address r text)
      {reply = reply},
)

-- In a channel, a text that neither begins with "!" nor addresses the bot is not answered.
pub dispatch_from_ignores :
    (r : Router) (nick target text : Text)
    → has_prefix target (bytes "#") ≡ true
    → has_prefix text (bytes "!") ≡ false
    → is_addressed r text ≡ false
    → dispatch_from r nick target text ≡ none
unfolding dispatch_from command_line
dispatch_from_ignores r nick target text h h' h'' = ground arith

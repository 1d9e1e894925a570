-- ===== src/CmdParse/Tests.antt =====
-- The theorems on the command router at concrete inputs.
use scuttlebot.CmdParse.Dispatch.Attribution.{dispatch_attributed}
use scuttlebot.Common.{
  trim_space, to_lower, has_prefix, contains_byte, bytes, text_eq, [], ◌∷◌, ◌++◌, some, ◌≡◌, refl,
}
use scuttlebot.Common.Dict
use scuttlebot.Common.Dict.{Dict}
use scuttlebot.CmdParse.Router.{Router, Command, Reply, is_valid_nick}
use scuttlebot.CmdParse.Dispatch.{dispatch, dispatch_from, is_addressed}

abbrev echo : Command
echo = record { name = bytes "echo"; usage = []; description = []; handler = λ ctx args. args }

abbrev router1 : Router
router1 = record { bot_nick = bytes "warden"; purpose = []; commands = (bytes "echo", echo) ∷ [] }

abbrev reply1 : Reply
reply1 = record { target = bytes "#ops"; text = bytes "hi" }

echoes : dispatch_from router1 (bytes "ada") (bytes "#ops") (bytes "!echo hi") ≡ some reply1
unfolding dispatch_from has_prefix text_eq to_lower trim_space Dict.get is_addressed
echoes = refl

dispatch_attributed_example :
    dispatch router1
      (bytes "eve")
      (bytes "#ops")
      (91 ∷ ((bytes "ada") ++ (93 ∷ 32 ∷ (bytes "!kick bob"))))
    ≡ dispatch_from router1 (bytes "ada") (bytes "#ops") (trim_space (bytes "!kick bob"))
unfolding is_valid_nick text_eq contains_byte trim_space
dispatch_attributed_example =
    dispatch_attributed router1 (bytes "eve") (bytes "ada") (bytes "#ops") (bytes "!kick bob") refl
      refl

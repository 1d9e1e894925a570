-- ===== src/Warden/Commands.antt =====
-- Whom the warden acts against, and on whose word.
use scuttlebot.Protocol.{unmarshal, Envelope}
use scuttlebot.Common.{
  has_prefix, trim_space, Result-cases, is_err, ℕ, Text, bytes, Bool, true, Option, ◌≡◌, ◌⊎◌, inl,
  inr, refl, arith, Bool-cases, All,
}
use scuttlebot.Warden.Limits.{Floats}
use scuttlebot.Warden.Moderation.{
  kick_out, unban_after, ban, notice, channel_state_for, Effect, Bot, on_message,
}

pub IsNotice : Effect → Type 0
IsNotice (notice to text) = Unit
IsNotice (ban channel who) = ⊥
IsNotice (unban_after d channel who) = ⊥
IsNotice (kick_out channel who reason) = ⊥

-- For a message of a channel operator, and for a text that is no envelope, the handler at most sends
-- notices, and all it changes is that the channel of the message is under moderation afterwards.
pub on_message_spares :
    {fl : Floats} (decode : Text → Option Envelope) (is_channel_op : Text → Text → Bool)
    (b : Bot fl) (channel nick text : Text) (now : ℕ)
    → (is_channel_op channel nick ≡ true) ⊎ (is_err (unmarshal decode text) ≡ true)
    → All IsNotice (on_message decode is_channel_op b channel nick text now).0
      × (((on_message decode is_channel_op b channel nick text now).1 ≡ b)
          ⊎ ((on_message decode is_channel_op b channel nick text now).1
              ≡ (channel_state_for b channel).1))
unfolding on_message IsNotice
on_message_spares decode is_channel_op b channel nick text now h =
    elim (Bool-cases (has_prefix channel (bytes "#"))) [
      | inr other ↦ rw other (tt, inl refl)
      | inl here ↦ elim (Result-cases (unmarshal decode text)) [
        | inr (e, bad) ↦ elim (Bool-cases (has_prefix (trim_space text) (bytes "{"))) [
          | inl broken ↦ rw (on_message, here, bad, broken) ((tt, tt), inr refl)
          | inr chat ↦ rw (on_message, here, bad, chat) (tt, inr refl)
        ]
        | inl (env, good) ↦ elim (Bool-cases (is_channel_op channel nick)) [
          | inl op ↦ rw (on_message, here, good, op) (tt, inr refl)
          | inr no_op ↦ ground arith
        ]
      ]
    ]

-- ===== src/Warden/Repetition.antt =====
-- When the repeated messages of a nick, and two nicks that alternate, are noticed.
use scuttlebot.Common.Recent.{keep_last-keep_last, append_nil, snoc_append}
use scuttlebot.Common.{
  keep_last, ℕ, Text, text_eq, List, [], ◌∷◌, ◌++◌, none, ◌≡◌, refl, sym, leb, count,
}
use scuttlebot.Common.Dict
use scuttlebot.Common.Dict.{Dict}
use scuttlebot.Warden.Limits.{Floats, ChannelState, entry}
use scuttlebot.Warden.Burst.{entry-store}
use scuttlebot.Warden.Loops.{record_message}

-- The state after a nick sent these texts, at these times.
pub remember : {fl : Floats} → ChannelState fl → Text → List (ℕ × Text) → ChannelState fl
remember cs nick [] = cs
remember cs nick ((t, m) ∷ ms) = remember (record_message cs nick t m).1 nick ms

abbrev pub texts : List (ℕ × Text) → List Text
texts [] = []
texts ((t, m) ∷ ms) = m ∷ texts ms

recorded :
    {fl : Floats} (cs : ChannelState fl) (nick : Text) (past : List Text) (t' : ℕ) (m : Text)
    → ((t : ℕ) → (entry cs nick t).recent_msgs ≡ keep_last 10 past)
    → (t : ℕ)
    → (entry (record_message cs nick t' m).1 nick t).recent_msgs ≡ keep_last 10 (past ++ (m ∷ []))
unfolding record_message
recorded cs nick past t' m h t = rw (entry-store cs nick t _, h t') (keep_last-keep_last 10 past m)

remember_recent :
    {fl : Floats} (cs : ChannelState fl) (nick : Text) (past : List Text) (ms : List (ℕ × Text))
    → ((t : ℕ) → (entry cs nick t).recent_msgs ≡ keep_last 10 past)
    → (t : ℕ) → (entry (remember cs nick ms) nick t).recent_msgs ≡ keep_last 10 (past ++ texts ms)
unfolding remember
remember_recent cs nick past [] h t = rw (append_nil past) (h t)
remember_recent cs nick past ((t', m) ∷ ms) h t = rw (sym (snoc_append past m (texts ms))) (
    remember_recent (record_message cs nick t' m).1 nick (past ++ (m ∷ [])) ms
      (recorded cs nick past t' m h) t)

fresh_entry :
    {fl : Floats} (cs : ChannelState fl) (nick : Text) (t : ℕ)
    → Dict.get cs.nicks nick ≡ none
    → (entry cs nick t).recent_msgs ≡ []
unfolding entry
fresh_entry cs nick t new = rw (entry, new) refl

-- A message of a nick counts as a loop exactly if it stands three times among the last ten messages of
-- that nick, itself included, however many came before.
pub record_message_loops :
    {fl : Floats} (cs : ChannelState fl) (nick : Text) (past : List (ℕ × Text)) (now : ℕ)
    (text : Text)
    → Dict.get cs.nicks nick ≡ none
    → (record_message (remember cs nick past) nick now text).0
      ≡ leb 3 (count (λ m. text_eq m text) (keep_last 10 (texts past ++ (text ∷ []))))
unfolding record_message
record_message_loops cs nick past now text new =
    let fresh = λ (t : ℕ). fresh_entry cs nick t new in
    let before = remember_recent cs nick [] past fresh now in
    rw (before, keep_last-keep_last 10 (texts past) text) refl

-- ===== src/Warden/Escalation.antt =====
-- What the violations of a nick lead to.
use scuttlebot.Common.{
  replicate, ℕ, ◌+◌, ◌-◌, ◌≤◌, ◌<◌, Text, List, [], ◌∷◌, ◌≡◌, ◌≢◌, ◌∙◌, refl, arith, length,
}
use scuttlebot.Warden.Limits.{
  NickState, Limits, warn, mute, kick, Action, Floats, ChannelState, entry, store, violation,
  standing, action_for,
}
use scuttlebot.Warden.Loops.{record_message}
use scuttlebot.Warden.Limits.{consume}
use scuttlebot.Warden.Burst.{entry-store, entry-record_message, consume-cfg, taken_note}

-- The state in which a message of a nick counts as a violation: it is noted in the history of the nick,
-- and the bucket has been asked.
abbrev refused : {fl : Floats} → ChannelState fl → Text → ℕ → Text → ChannelState fl
refused cs nick t text = (taken_note cs nick t text).1

-- The actions for the messages of a nick that count as violations, each with its time.
pub actions : {fl : Floats} → ChannelState fl → Text → List (ℕ × Text) → List Action
actions cs nick [] = []
actions cs nick ((t, text) ∷ ms) =
    let (action, cs') = violation (refused cs nick t text) nick t t in action ∷ actions cs' nick ms

-- Each time comes no later than the cool-down after the one before it.
unfoldable pub Close : ℕ → ℕ → List (ℕ × Text) → Type 0
Close d last [] = Unit
Close d last ((t, text) ∷ ms) = (t - last ≤ d) × Close d t ms

violation-cfg :
    {fl : Floats} (cs : ChannelState fl) (nick : Text) (created now : ℕ)
    → (violation cs nick created now).1.cfg ≡ cs.cfg
unfolding violation store
violation-cfg cs nick created now = refl

stands :
    {fl : Floats} (cfg : Limits fl) (ns : NickState fl) (now : ℕ)
    → now - ns.last_action ≤ cfg.cool_down
    → standing cfg ns now ≡ ns.violations
unfolding standing
stands cfg ns now gap = ground arith

-- The violations that a nick has at some moment, and the time of the last.
abbrev At : {fl : Floats} → ChannelState fl → Text → ℕ → ℕ → Type 0
At cs nick n last =
    (t : ℕ) → ((entry cs nick t).violations ≡ n) × ((entry cs nick t).last_action ≡ last)

At-refused :
    {fl : Floats} (cs : ChannelState fl) (nick text : Text) (n last now : ℕ)
    → At cs nick n last
    → At (refused cs nick now text) nick n last
unfolding consume
At-refused cs nick text n last now at t =
    let noted = (record_message cs nick now text).1 in
    let (_, _, many, when, _) = entry-record_message cs nick text now now in
    let (many', when') = at now in
    (rw (entry-store noted nick t _) (many ∙ many'), rw (entry-store noted nick t _) (when ∙ when'))

cfg-refused :
    {fl : Floats} (cs : ChannelState fl) (nick text : Text) (now : ℕ)
    → (refused cs nick now text).cfg ≡ cs.cfg
cfg-refused cs nick text now =
    let (_, _, _, _, same) = entry-record_message cs nick text now now in
    consume-cfg (record_message cs nick now text).1 nick now now ∙ same

cfg-step :
    {fl : Floats} (cs : ChannelState fl) (nick text : Text) (now : ℕ)
    → (violation (refused cs nick now text) nick now now).1.cfg ≡ cs.cfg
cfg-step cs nick text now =
    violation-cfg (refused cs nick now text) nick now now ∙ cfg-refused cs nick text now

violation_step :
    {fl : Floats} (cs : ChannelState fl) (nick text : Text) (n last now : ℕ)
    → At cs nick n last
    → now - last ≤ cs.cfg.cool_down
    → ((violation (refused cs nick now text) nick now now).0 ≡ action_for (n + 1))
      × At (violation (refused cs nick now text) nick now now).1 nick (n + 1) now
unfolding violation
violation_step cs nick text n last now at gap =
    let asked = refused cs nick now text in
    let (many, when) = At-refused cs nick text n last now at now in
    let still =
      stands asked.cfg (entry asked nick now) now (rw (when, cfg-refused cs nick text now) gap) in
    (rw (still, many) refl, λ t. rw (entry-store asked nick t _, still, many) (refl, refl))

third : (n : ℕ) → 2 ≤ n → action_for (n + 1) ≡ kick
unfolding action_for
third n h = ground arith

kicks :
    {fl : Floats} (cs : ChannelState fl) (nick : Text) (n last : ℕ) (ms : List (ℕ × Text))
    → At cs nick n last
    → 2 ≤ n
    → Close cs.cfg.cool_down last ms
    → actions cs nick ms ≡ replicate (length ms) kick
unfolding actions Close
kicks cs nick n last [] at many near = refl
kicks cs nick n last ((t, text) ∷ ms) at many (gap, near) =
    let (first, next) = violation_step cs nick text n last t at gap in
    let rest =
      kicks (violation (refused cs nick t text) nick t t).1 nick (n + 1) t ms next (omega arith)
        (rw (cfg-step cs nick text t) near) in
    rw (first, third n many, rest) refl

-- The first of the violations that count.
first_violation :
    {fl : Floats} (cs : ChannelState fl) (nick text : Text) (now : ℕ)
    → (entry cs nick now).violations ≡ 0
    → ((violation (refused cs nick now text) nick now now).0 ≡ warn)
      × At (violation (refused cs nick now text) nick now now).1 nick 1 now
unfolding violation standing action_for consume
first_violation cs nick text now clean =
    let noted = (record_message cs nick now text).1 in
    let asked = refused cs nick now text in
    let (_, _, many, _, _) = entry-record_message cs nick text now now in
    let none_yet : (entry asked nick now).violations ≡ 0 =
      rw (entry-store noted nick now _) (many ∙ clean) in
    let still : standing asked.cfg (entry asked nick now) now ≡ 0 = ground arith in
    (rw still refl, λ t. rw (entry-store asked nick t _, still) (refl, refl))

-- The messages of a nick with no violation counted, that are violations each no later than the
-- cool-down after the one before, lead to a warning, then to a mute, and then to a kick every time. Each
-- message is noted in the history of the nick and the bucket is asked before the violation is counted.
pub violations_escalate :
    {fl : Floats} (cs : ChannelState fl) (nick : Text) (m1 m2 : ℕ × Text) (ms : List (ℕ × Text))
    → (entry cs nick m1.0).violations ≡ 0
    → Close cs.cfg.cool_down m1.0 (m2 ∷ ms)
    → actions cs nick (m1 ∷ m2 ∷ ms) ≡ warn ∷ mute ∷ replicate (length ms) kick
unfolding actions Close
violations_escalate cs nick (t1, x1) (t2, x2) ms clean (gap, near) =
    let s1 = (violation (refused cs nick t1 x1) nick t1 t1).1 in
    let (a1, at1) = first_violation cs nick x1 t1 clean in
    let same1 = cfg-step cs nick x1 t1 in
    let (a2, at2) = violation_step s1 nick x2 1 t1 t2 at1 (rw same1 gap) in
    let same2 = cfg-step s1 nick x2 t2 in
    let rest =
      kicks (violation (refused s1 nick t2 x2) nick t2 t2).1 nick 2 t2 ms at2 (omega arith)
        (rw (same2, same1) near) in
    rw (a1, a2, rest) (unfold action_for in refl)

-- A violation more than the cool-down after the last action leads to a warning, whatever came before.
pub violation_cooled :
    {fl : Floats} (cs : ChannelState fl) (nick : Text) (created now : ℕ)
    → (entry cs nick created).last_action ≢ 0
    → cs.cfg.cool_down < now - (entry cs nick created).last_action
    → (violation cs nick created now).0 ≡ warn
unfolding violation standing action_for
violation_cooled cs nick created now before late = ground arith

-- ===== src/CmdParse/Dispatch/Attribution.antt =====
-- Who counts as the sender of a message that begins with "[nick] ".
use scuttlebot.Common.{
  has_prefix, contains_byte, take, trim_space, drop, index_of, ℕ, suc, ◌+◌, ◌-◌, Text, bytes,
  text_eq, [], ◌∷◌, ◌++◌, true, false, none, some, ◌≡◌, ◌≢◌, refl, ap, arith, if◌then◌else◌, ltb,
  length,
}
use scuttlebot.CmdParse.Router.{Router, is_valid_nick, all_nick_bytes, is_nick_byte}
use scuttlebot.CmdParse.Dispatch.{
  has_prefix, trim_space, drop, index_of, take, dispatch, dispatch_from, attribution,
}

nick_byte_ne_blank : (c : ℕ) → is_nick_byte c ≡ true → c ≢ 32
unfolding is_nick_byte contains_byte
nick_byte_ne_blank c h e = ground arith

no_blank : (s : Text) → all_nick_bytes s ≡ true → contains_byte s 32 ≡ false
unfolding all_nick_bytes contains_byte
no_blank [] h = refl
no_blank (c ∷ s) h = ground (arith, no_blank s, nick_byte_ne_blank c)

-- The first "] " after a text without blanks is the one that ends it.
end_of_nick :
    (real rest : Text)
    → contains_byte real 32 ≡ false
    → index_of (real ++ (93 ∷ 32 ∷ rest)) (93 ∷ 32 ∷ []) ≡ some (length real)
unfolding index_of contains_byte has_prefix
end_of_nick [] rest h = refl
end_of_nick (c ∷ []) rest h = ground (arith, end_of_nick [] rest)
end_of_nick (c ∷ d ∷ real) rest h = ground (arith, end_of_nick (d ∷ real) rest)

take_prefix : (real rest : Text) → take (length real) (real ++ rest) ≡ real
take_prefix [] rest = refl
take_prefix (c ∷ real) rest = ap (λ (s : Text). c ∷ s) (take_prefix real rest)

drop_past : (real rest : Text) → drop (length real + 2) (real ++ (93 ∷ 32 ∷ rest)) ≡ rest
drop_past [] rest = refl
drop_past (c ∷ real) rest =
    let step : suc (length real) + 2 ≡ suc (length real + 2) = omega arith in
    rw step (drop_past real rest)

end_of_prefix :
    (real rest : Text)
    → all_nick_bytes real ≡ true
    → index_of (91 ∷ (real ++ (93 ∷ 32 ∷ rest))) (bytes "] ") ≡ some (length real + 1)
end_of_prefix real rest h =
    unfold index_of has_prefix in ground (arith, end_of_nick real rest (no_blank real h))

attribution_lem :
    (nick real rest : Text)
    → is_valid_nick real ≡ true
    → attribution nick (91 ∷ (real ++ (93 ∷ 32 ∷ rest))) ≡ (real, trim_space rest)
attribution_lem nick [] rest v = unfold is_valid_nick text_eq in cc
attribution_lem nick (c ∷ tail) rest v =
    let real = c ∷ tail in
    let all : all_nick_bytes real ≡ true = unfold is_valid_nick in ground arith in
    let before : length real + 1 - 1 ≡ length real = omega arith in
    let after : length real + 1 + 2 ≡ suc (length real + 2) = omega arith in
    let long : ltb 1 (length real + 1) ≡ true = ground arith in
    unfold attribution has_prefix in
    rw (end_of_prefix real rest all, attribution)
      (rw (before, take_prefix real (93 ∷ 32 ∷ rest), long, v, after)
        (ap (λ (t : Text). (real, trim_space t)) (drop_past real rest)))

dispatch_known :
    (r : Router) (nick target message : Text)
    → dispatch r nick target message ≡ (
        if text_eq (trim_space message) []
        then none
        else dispatch_from r
            (attribution nick (trim_space message)).0
            target
            (attribution nick (trim_space message)).1)
unfolding dispatch
dispatch_known r nick target message = refl

-- A message "[real] rest", with a valid nick in the brackets and no white space around it, is handled
-- as `rest` from that nick, whoever sent it.
pub dispatch_attributed :
    (r : Router) (sender real target rest : Text)
    → is_valid_nick real ≡ true
    → trim_space (91 ∷ (real ++ (93 ∷ 32 ∷ rest))) ≡ 91 ∷ (real ++ (93 ∷ 32 ∷ rest))
    → dispatch r sender target (91 ∷ (real ++ (93 ∷ 32 ∷ rest)))
      ≡ dispatch_from r real target (trim_space rest)
unfolding text_eq
dispatch_attributed r sender real target rest v trimmed =
    rw
      (
        dispatch_known r sender target (91 ∷ (real ++ (93 ∷ 32 ∷ rest))),
        trimmed,
        attribution_lem sender real rest v,
      )
      refl

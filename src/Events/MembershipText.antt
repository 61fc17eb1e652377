-- ===== src/Events/MembershipText.antt =====
-- events/room.rs: `FromStr` and `ToString` of `Membership`.
use kerux.Prelude.{String, ◌≡◌, ◌⊎◌, inl, inr, refl, sym, subst, ◌↔◌, arith}
use kerux.Prelude.Tests.{if◌then◌else◌}
use kerux.Prelude.Equality.{◌==◌, string_eq}
use kerux.Events.Room.{Membership}

pub record InvalidMembership : Type 0 where
  pub text : String

-- The result of `parse`.
unfoldable pub from_str : String → InvalidMembership ⊎ Membership
from_str s =
    if s == "ban"
    then inr Membership.ban
    else if s == "invite"
    then inr Membership.invite
    else if s == "join"
    then inr Membership.join
    else if s == "knock"
    then inr Membership.knock
    else if s == "leave"
    then inr Membership.leave
    else inl (record { text = s })

unfoldable pub to_string : Membership → String
to_string Membership.ban = "ban"
to_string Membership.invite = "invite"
to_string Membership.join = "join"
to_string Membership.knock = "knock"
to_string Membership.leave = "leave"

from_str-to_string : (m : Membership) → from_str (to_string m) ≡ inr m
unfolding from_str to_string string_eq
from_str-to_string Membership.ban = refl
from_str-to_string Membership.invite = refl
from_str-to_string Membership.join = refl
from_str-to_string Membership.knock = refl
from_str-to_string Membership.leave = refl

read_as : (s : String) (m : Membership) → from_str s ≡ inr m → s ≡ to_string m
unfolding from_str to_string
read_as s Membership.ban h = ground arith
read_as s Membership.invite h = ground arith
read_as s Membership.join h = ground arith
read_as s Membership.knock h = ground arith
read_as s Membership.leave h = ground arith

-- A text is read as a membership exactly if it is how that membership is written.
from_str_iff : (s : String) (m : Membership) → (from_str s ≡ inr m) ↔ (s ≡ to_string m)
from_str_iff s m =
    (read_as s m, λ e. subst (λ x. from_str x ≡ inr m) (sym e) (from_str-to_string m))

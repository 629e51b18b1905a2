-- ===== src/Channels/Config.antt =====
-- The definition of a release channel in backend/server/src/config.rs, and channels/mod.rs, which
-- finds the channels that watch a branch.
use eka_ci.Prelude.{Bool, true, false, ◌&&◌, ◌≡◌, ◌↔◌, List, ◌++◌, arith, Eq, retain}
use eka_ci.Prelude.Text.{Text, Text_eq, text, to_ascii_lowercase}

pub data ChannelForge : Type 0 where
  github : ChannelForge
  gitlab gitea : (domain : Text) → ChannelForge

unfoldable pub eq_forge : ChannelForge → ChannelForge → Bool
eq_forge github github = true
eq_forge (gitlab d) (gitlab d') = Text_eq.eq d d'
eq_forge (gitea d) (gitea d') = Text_eq.eq d d'
eq_forge _ _ = false

pub eq_forge_iff : (f g : ChannelForge) → (eq_forge f g ≡ true) ↔ (f ≡ g)
unfolding eq_forge
eq_forge_iff github github = ground arith
eq_forge_iff github (gitlab d) = ground arith
eq_forge_iff github (gitea d) = ground arith
eq_forge_iff (gitlab d) github = ground arith
eq_forge_iff (gitlab d) (gitlab d') = ground (arith, Text_eq.eq_iff d d')
eq_forge_iff (gitlab d) (gitea d') = ground arith
eq_forge_iff (gitea d) github = ground arith
eq_forge_iff (gitea d) (gitlab d') = ground arith
eq_forge_iff (gitea d) (gitea d') = ground (arith, Text_eq.eq_iff d d')

instance abbrev pub ChannelForge_eq : Eq ChannelForge
ChannelForge_eq = record { eq = eq_forge; eq_iff = eq_forge_iff }

abbrev pub as_id_prefix : ChannelForge → Text
as_id_prefix github = text "github"
as_id_prefix (gitlab domain) = text "gitlab:" ++ domain
as_id_prefix (gitea domain) = text "gitea:" ++ domain

pub record ChannelConfig : Type 0 where
  pub forge : ChannelForge
  pub owner : Text
  pub repo : Text
  pub name : Text
  pub tracking_branch : Text
  pub target_branch : Text
  pub required : List Text
  pub packages : List Text
  pub dry_run : Bool

unfoldable pub channel_id : ChannelConfig → Text
channel_id c =
    as_id_prefix c.forge
    ++ (text "/" ++ (c.owner ++ (text "/" ++ (c.repo ++ (text "/" ++ c.name)))))

unfoldable pub eq_ignore_ascii_case : Text → Text → Bool
eq_ignore_ascii_case s t = Text_eq.eq (to_ascii_lowercase s) (to_ascii_lowercase t)

-- The test that the filters of the code share.
unfoldable pub is_hosted_at : ChannelForge → Text → Text → ChannelConfig → Bool
is_hosted_at forge owner repo c =
    eq_forge c.forge forge && (eq_ignore_ascii_case c.owner owner && Text_eq.eq c.repo repo)

-- The values of the map of channels come in no order that is relied on.
unfoldable pub match_push_channels :
    List ChannelConfig → ChannelForge → (owner repo branch : Text) → List ChannelConfig
match_push_channels channels forge owner repo branch =
    retain (λ c. is_hosted_at forge owner repo c && Text_eq.eq c.tracking_branch branch) channels

unfoldable pub match_target_branch_channels :
    List ChannelConfig → ChannelForge → (owner repo branch : Text) → List ChannelConfig
match_target_branch_channels channels forge owner repo branch =
    retain (λ c. is_hosted_at forge owner repo c && Text_eq.eq c.target_branch branch) channels

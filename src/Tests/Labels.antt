-- ===== src/Tests/Labels.antt =====
-- The label parser at concrete containers (internal/docker), and the parser together with the worker.
use npmplus_docker_sync.Base.{
  ℕ, ◌≤◌, ◌<◌, ◌==◌, Bool, true, false, ◌||◌, ◌≡◌, ◌≢◌, refl, inl, inr, [], ◌∷◌, ◌++◌, Option, none,
  some, In, here, List, length, is_empty, arith,
}
use npmplus_docker_sync.Base.Dict.{Dict}
use npmplus_docker_sync.Base.Number.{pos, itoa}
use npmplus_docker_sync.Base.Text.{Text, text}
use npmplus_docker_sync.Docker.Address.{Container, ParseOptions}
use npmplus_docker_sync.Docker.Build.Laws.{IsWritable, build_target-IsWritable, build_stream-Legal}
use npmplus_docker_sync.Docker.Build.Laws.Streams.{StreamReady}
use npmplus_docker_sync.Docker.Build.Stream.{build_stream}
use npmplus_docker_sync.Docker.Build.Target.{build_target}
use npmplus_docker_sync.Docker.Build.Upstream.{idle}
use npmplus_docker_sync.Docker.Checked.{LabelError, Checked}
use npmplus_docker_sync.Docker.FieldSet.{FieldSet}
use npmplus_docker_sync.Docker.Groups.{EntryKey}
use npmplus_docker_sync.Docker.Labels.{split_label, negative_index, no_name}
use npmplus_docker_sync.Docker.Labels.Laws.{label_name, split_label_swap, split_label-itoa}
use npmplus_docker_sync.Docker.Labels.Negative.{split_label-ne-negative}
use npmplus_docker_sync.Docker.Labels.Words.{word-IsSegment, plain_byte}
use npmplus_docker_sync.Docker.Managed.{lookup_enable}
use npmplus_docker_sync.Docker.Scan.{parse, parse_all, scan}
use npmplus_docker_sync.Docker.Scan.Laws.{HasErrors, scan_protected, scan-parse_all}
use npmplus_docker_sync.Docker.Types.{Target, is_protected}
use npmplus_docker_sync.Fields.Names.{normalize}
use npmplus_docker_sync.Npm.Kind.{proxy, stream, dead, to_text}
use npmplus_docker_sync.Syncer.Listed.{reconcile_listed}
use npmplus_docker_sync.Syncer.Listed.Protection.{NotOfBroken, reconcile_listed-scan}
use npmplus_docker_sync.Syncer.Orphans.{Orphan}
use npmplus_docker_sync.Tests.World.{Host, world, worker, options, app, listed}

abbrev any_ip : Text → Bool
any_ip s = true

abbrev parse_options : ParseOptions
parse_options = record {
  prefix = text "npm";
  resolve_ip = false;
  prefer_networks = [];
  strict_networks = false;
  defaults = none;
  exposed_by_default = true;
  strict_labels = false;
  port_preference = [];
  self_id = [];
  offline = false;
}

abbrev container_with : Text → Dict Text → Container
container_with id labels = record {
  id = id;
  name = text "web";
  labels = labels;
  networks = [];
  ports = [];
  state = text "running";
}

-- A container for a host, and one whose labels name no domain.
abbrev web : Container
web =
    container_with (text "c7") (
      (text "npm.proxy.domains", text "Web.Example.org")
      ∷ (text "npm.proxy.port", text "8080")
      ∷ [])

abbrev broken : Container
broken = container_with (text "c8") ((text "npm.proxy.port", text "8080") ∷ [])

-- The target, or another one in place of an error.
abbrev target_or : Target → Checked Target → Target
target_or t (inl e) = t
target_or t (inr u) = u

succeeds : Checked Target → Bool
succeeds (inl e) = false
succeeds (inr u) = true

inr-target_or : (t : Target) (m : Checked Target) → succeeds m ≡ true → m ≡ inr (target_or t m)
unfolding succeeds
inr-target_or t (inl e) h = absurd (cc)
inr-target_or t (inr u) h = refl

abbrev proxy_key : EntryKey
proxy_key = record { kind = proxy; index = 0 }

abbrev proxy_set : FieldSet
proxy_set = record {
  prefix = text "npm";
  kind = proxy;
  index = 0;
  values = (text "domains", text "Web.Example.org") ∷ (text "forward.port", text "8080") ∷ [];
  labels = [];
  defaults = none;
  tainted = false;
}

abbrev web_target : Target
web_target = target_or app (build_target any_ip web parse_options proxy_key proxy_set)

web-succeeds : succeeds (build_target any_ip web parse_options proxy_key proxy_set) ≡ true
unfolding succeeds build_target npmplus_docker_sync.Docker.Checked.◌>>=◌
    npmplus_docker_sync.Base.Text.trim_suffix npmplus_docker_sync.Docker.FieldSet.in_range
web-succeeds = refl

web_built : build_target any_ip web parse_options proxy_key proxy_set ≡ inr web_target
web_built =
    inr-target_or app (build_target any_ip web parse_options proxy_key proxy_set) web-succeeds

web_up : idle web parse_options ≡ false
unfolding idle npmplus_docker_sync.Base.Text.◌=?◌
web_up = refl

build_target-IsWritable_example : IsWritable proxy web_target
build_target-IsWritable_example =
    build_target-IsWritable any_ip web parse_options web_up proxy_key proxy_set web_target web_built

abbrev stream_set : FieldSet
stream_set = record {
  prefix = text "npm";
  kind = stream;
  index = 0;
  values = (text "incoming.port", text "5432") ∷ (text "protocol", text "both") ∷ [];
  labels = [];
  defaults = none;
  tainted = false;
}

abbrev stream_target : Target
stream_target = target_or app (build_stream any_ip app web parse_options stream_set)

stream_succeeds : succeeds (build_stream any_ip app web parse_options stream_set) ≡ true
unfolding succeeds build_stream npmplus_docker_sync.Docker.Checked.◌>>=◌
    npmplus_docker_sync.Docker.FieldSet.in_range npmplus_docker_sync.Docker.Build.Stream.transport
    npmplus_docker_sync.Docker.Build.Stream.transports
    npmplus_docker_sync.Docker.Build.Stream.protocol_version
stream_succeeds = refl

stream_built : build_stream any_ip app web parse_options stream_set ≡ inr stream_target
stream_built =
    inr-target_or app (build_stream any_ip app web parse_options stream_set) stream_succeeds

build_stream-Legal_example : StreamReady app stream_target
build_stream-Legal_example =
    build_stream-Legal any_ip web parse_options web_up app stream_target stream_set stream_built

broken-HasErrors : HasErrors any_ip parse_options broken
unfolding parse npmplus_docker_sync.Docker.Groups.put_group
    npmplus_docker_sync.Docker.Groups.with_value npmplus_docker_sync.Docker.Checked.◌>>=◌
broken-HasErrors = inl refl

-- Whatever id the resource remembers, the name protects it.
scan_protected_example :
    is_protected (scan any_ip parse_options (broken ∷ web ∷ [])).0 broken.name (text "gone") ≡ true
scan_protected_example =
    scan_protected any_ip parse_options broken (broken ∷ web ∷ []) broken.name (text "gone")
      (here refl) broken-HasErrors (inr (refl, inr refl))

scan-parse_all_example :
    ((scan any_ip parse_options (broken ∷ web ∷ [])).0.targets
      ≡ (parse_all any_ip parse_options (broken ∷ web ∷ [])).targets)
    × ((scan any_ip parse_options (broken ∷ web ∷ [])).1.errors
        ≡ (parse_all any_ip parse_options (broken ∷ web ∷ [])).errors)
    × ((scan any_ip parse_options (broken ∷ web ∷ [])).1.warnings
        ≡ (parse_all any_ip parse_options (broken ∷ web ∷ [])).warnings)
scan-parse_all_example = scan-parse_all any_ip parse_options (broken ∷ web ∷ [])

split_label-ne-negative_example : split_label (text "proxy.-1.domains") ≢ inl negative_index
split_label-ne-negative_example = split_label-ne-negative (text "proxy.-1.domains")

split_label-itoa_example :
    split_label (to_text proxy ++ (b'.' ∷ itoa (pos 3) ++ (b'.' ∷ text "Forward_Host")))
    ≡ inr (label_name proxy 3, normalize (text "Forward_Host"))
unfolding normalize
split_label-itoa_example =
    split_label-itoa proxy 3 (text "Forward_Host") (here refl) (omega arith) refl

split_label_swap_example :
    split_label (text "1" ++ (b'.' ∷ text "proxy" ++ (b'.' ∷ text "domains")))
    ≡ split_label (text "proxy" ++ (b'.' ∷ text "1" ++ (b'.' ∷ text "domains")))
unfolding plain_byte npmplus_docker_sync.Base.Dict.lookup npmplus_docker_sync.Base.Text.◌=?◌
    npmplus_docker_sync.Base.Number.atoi
split_label_swap_example =
    split_label_swap (text "proxy") (text "1") (text "domains") proxy 1
      (word-IsSegment (text "proxy") (refl, (refl, (refl, (refl, (refl, tt))))) refl)
      (word-IsSegment (text "1") (refl, tt) refl) refl refl refl

-- Which of two spellings of the opt-in label counts depends on the order in which the map of the
-- labels is ranged over.
first_spelling :
    lookup_enable
      (text "npm")
      ((text "npm.enable", text "true") ∷ (text "npm-enable", text "false") ∷ [])
    ≡ some (text "true")
unfolding lookup_enable
first_spelling = refl

other_spelling :
    lookup_enable
      (text "npm")
      ((text "npm-enable", text "false") ∷ (text "npm.enable", text "true") ∷ [])
    ≡ some (text "false")
unfolding lookup_enable
other_spelling = refl

-- The number 404 is a spelling of a kind, so the kind behind it is read as the field.
index_404 :
    split_label (text "404.proxy.domains")
    ≡ inr (record no_name { kind = dead; kind_set = true }, text "proxy.domains")
unfolding split_label npmplus_docker_sync.Base.Text.◌=?◌
index_404 = refl

kind_404 : split_label (text "proxy.404.domains") ≡ inr (label_name proxy 404, text "domains")
unfolding split_label npmplus_docker_sync.Base.Text.◌=?◌
kind_404 = refl

abbrev gone : Orphan
gone = record { kind = proxy; key = text "old.example.org"; id = 4; container = text "old" }

gone-In :
    In gone
      (reconcile_listed world options proxy
        (app ∷ [])
        (scan any_ip parse_options (broken ∷ [])).0
        listed
        worker).0.orphans
unfolding reconcile_listed npmplus_docker_sync.Base.Dict.lookup npmplus_docker_sync.Base.Dict.insert
    npmplus_docker_sync.Base.Dict.has_key npmplus_docker_sync.Docker.Types.key
    npmplus_docker_sync.Base.Text.trim_suffix npmplus_docker_sync.Base.Text.to_lower
    npmplus_docker_sync.Base.Text.trim_space npmplus_docker_sync.Npm.Meta.is_managed
    npmplus_docker_sync.Npm.Meta.owned_by_instance npmplus_docker_sync.Npm.Meta.text_of scan
    npmplus_docker_sync.Docker.Groups.put_group npmplus_docker_sync.Docker.Groups.with_value
    npmplus_docker_sync.Docker.Checked.◌>>=◌
gone-In = here refl

reconcile_listed-scan_example :
    (r : Host) × In r listed
    × (gone.id ≡ r.id)
    × NotOfBroken world any_ip parse_options (broken ∷ []) r
reconcile_listed-scan_example =
    reconcile_listed-scan world any_ip parse_options (broken ∷ []) options proxy (app ∷ []) listed
      worker gone gone-In

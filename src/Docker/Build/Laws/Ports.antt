-- ===== src/Docker/Build/Laws/Ports.antt =====
-- The ports that a target gets from its labels and its container.
use npmplus_docker_sync.Base.{
  ℕ, zero, suc, ltb, leb, ◌≤◌, ◌<◌, Bool, true, false, not, ◌&&◌, Option, none, some, ◌≡◌, refl,
  subst, arith, is_empty,
}
use npmplus_docker_sync.Base.Number.{ℤ, pos, negsuc, atoi}
use npmplus_docker_sync.Base.Text.{Text, trim_space, equal_fold}
use npmplus_docker_sync.Docker.Address.{
  Container, PortBinding, is_tcp, ParseOptions, guess_port, exposed_ports,
}
use npmplus_docker_sync.Docker.Address.Laws.{guess_port-Exposes}
use npmplus_docker_sync.Docker.Build.Upstream.{
  idle, without_port, guessed_port, port_of_setting, resolve_port, host_or, resolve_forward_host,
}
use npmplus_docker_sync.Docker.Build.Stream.{listen_port}
use npmplus_docker_sync.Docker.Checked.Laws.{Ok, failed, holds, Ok-skip, Ok-if}
use npmplus_docker_sync.Docker.FieldSet.{FieldSet, string, source, port, in_range, number_or}
use npmplus_docker_sync.Fields.Shared.Constants.{name_forward_host}
use npmplus_docker_sync.Fields.Types.{is_port, auto}

-- The number of a port setting: a port, 0 for none, or below 0 for "auto".
abbrev IsSetting : ℤ → Type 0
IsSetting (pos n) = n ≤ 65535
IsSetting (negsuc n) = Unit

in_range-IsSetting : (s : Text) (n : ℤ) → Ok IsSetting (in_range s n)
unfolding in_range is_port
in_range-IsSetting s (pos n) =
    Ok-if (leb 1 n && leb n 65535) (λ e. holds (ground arith)) (λ e. failed)
in_range-IsSetting s (negsuc n) = failed

pub port-IsSetting : (f : FieldSet) (field : Text) → Ok IsSetting (port f field)
unfolding port
port-IsSetting f field =
    let v = trim_space (string f field) in
    Ok-if (is_empty v) (λ e. holds (omega arith))
      (λ e.
        Ok-if (equal_fold v auto) (λ g. holds tt)
          (λ g.
            Ok-skip (number_or (source f field) v (atoi v)) (in_range-IsSetting (source f field))))

pub listen_port-InRange :
    (s : Text) (n : ℤ) → IsSetting n → Ok (λ p. 1 ≤ p × p ≤ 65535) (listen_port s n)
listen_port-InRange s (pos zero) h = failed
listen_port-InRange s (pos (suc n)) h = holds (omega arith, h)
listen_port-InRange s (negsuc n) h = failed

is_tcp-Positive : (b : PortBinding) → is_tcp b ≡ true → 0 < b.private_port
is_tcp-Positive b h = ground arith

-- A container that runs, outside of an offline check, gets a port or an error.
module _ (c : Container) (opts : ParseOptions) (up : idle c opts ≡ false) where
  without_port-Positive :
      (f : FieldSet) (field : Text) (fallback : ℕ)
      → Ok (λ p. 0 < p) (without_port c opts f field fallback)
  unfolding without_port
  without_port-Positive f field fallback =
      Ok-if (ltb 0 fallback) (λ e. holds (ground arith))
        (λ e.
          Ok-if (idle c opts) (λ g. absurd (cc))
            (λ g. Ok-if (is_empty (exposed_ports c)) (λ j. failed) (λ j. failed)))

  guessed_port-Positive :
      (f : FieldSet) (field : Text) (fallback : ℕ) (g : Option ℕ)
      → guess_port c opts.port_preference ≡ g
      → Ok (λ p. 0 < p) (guessed_port c opts f field fallback g)
  unfolding guessed_port
  guessed_port-Positive f field fallback (some p) e =
      let (b, _, tcp, same) = guess_port-Exposes c opts.port_preference p e in
      holds (subst (λ q. 0 < q) same (is_tcp-Positive b tcp))
  guessed_port-Positive f field fallback none e = without_port-Positive f field fallback

  port_of_setting-Positive :
      (f : FieldSet) (field : Text) (fallback : ℕ) (n : ℤ)
      → Ok (λ p. 0 < p) (port_of_setting c opts f field fallback n)
  unfolding port_of_setting
  port_of_setting-Positive f field fallback (pos zero) =
      Ok-if (ltb 0 fallback) (λ e. holds (ground arith))
        (λ e. Ok-if (idle c opts) (λ g. absurd (cc)) (λ g. failed))
  port_of_setting-Positive f field fallback (pos (suc n)) = holds (omega arith)
  port_of_setting-Positive f field fallback (negsuc n) =
      guessed_port-Positive f field fallback (guess_port c opts.port_preference) refl

  pub resolve_port-Positive :
      (f : FieldSet) (field : Text) (fallback : ℕ)
      → Ok (λ p. 0 < p) (resolve_port c opts f field fallback)
  unfolding resolve_port
  resolve_port-Positive f field fallback =
      Ok-skip (port f field) (port_of_setting-Positive f field fallback)

  module _ (parses_ip4 : Text → Bool) (f : FieldSet) where
    host_or-Present :
        (host : Text) → Ok (λ h. is_empty h ≡ false) (host_or parses_ip4 c opts f host)
    unfolding host_or
    host_or-Present host =
        Ok-if (not (is_empty host)) (λ e. holds (ground arith))
          (λ e.
            Ok-if (idle c opts) (λ g. absurd (cc))
              (λ g. Ok-if opts.strict_networks (λ j. failed) (λ j. failed)))

    pub resolve_forward_host-Present :
        Ok (λ h. is_empty h ≡ false) (resolve_forward_host parses_ip4 c opts f)
    unfolding resolve_forward_host
    resolve_forward_host-Present =
        Ok-if (not (is_empty (string f name_forward_host))) (λ e. holds (ground arith))
          (λ e. Ok-skip _ host_or-Present)

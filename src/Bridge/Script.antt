-- ===== src/Bridge/Script.antt =====
-- bridge/vm.go: the start-up script of a VM.
use orchard_gh_bridge.Base.{
  ℕ, zero, suc, ◌+◌, ◌/◌, ◌%◌, ltb, if◌then◌else◌, Text, codes, [], ◌∷◌, ◌++◌,
}
use orchard_gh_bridge.Base.Int.{ℤ, pos, ltb_ℤ, pos_part}

-- The decimal digits of a number, at most `fuel` of them; a number has no more digits than its
-- value plus one.
pub digits : ℕ → ℕ → Text
digits zero n = []
digits (suc fuel) n =
    let rest = digits fuel (n / 10) in
    if ltb n 10 then (b'0' + n) ∷ [] else rest ++ ((b'0' + n % 10) ∷ [])

pub decimal : ℕ → Text
unfolding digits
decimal n = digits (suc n) n

-- The text that sets up Docker, up to its port and after it.
abbrev docker_head : Text
docker_head =
    codes "\n"
    ++ codes "# Install Docker CLI and connect to host Docker daemon via TCP\n"
    ++ codes "# stdin must be redirected: Orchard pipes the script to bash, and brew\n"
    ++ codes "# would otherwise consume the remaining script lines from stdin.\n"
    ++ codes "brew install docker docker-compose docker-buildx < /dev/null\n"
    ++ codes "\n"
    ++ codes "# Register Compose/Buildx as Docker CLI plugins (brew installs them outs"
    ++ codes "ide\n"
    ++ codes "# the default plugin search path).\n"
    ++ codes "mkdir -p ~/.docker\n"
    ++ codes "echo '{\"cliPluginsExtraDirs\":[\"/opt/homebrew/lib/docker/cli-plugins\""
    ++ codes "]}' > ~/.docker/config.json\n"
    ++ codes "\n"
    ++ codes "DOCKER_HOST_IP=$(route -n get default | awk '/gateway:/ {print $2}')\n"
    ++ codes "export DOCKER_HOST=\"tcp://${DOCKER_HOST_IP}:"

abbrev docker_tail : Text
docker_tail = codes "\"\n"

-- The script up to the JIT config, up to the Docker part, and after it.
abbrev script_head : Text
script_head =
    codes "#!/bin/bash\n"
    ++ codes "set -euo pipefail\n"
    ++ codes "\n"
    ++ codes "export ACTIONS_RUNNER_INPUT_JITCONFIG=\""

abbrev script_middle : Text
script_middle = codes "\"\n" ++ codes "\n" ++ codes "source ~/.zprofile\n"

abbrev script_tail : Text
script_tail =
    codes "\n"
    ++ codes "# Download the latest GitHub Actions runner to avoid version deprecation"
    ++ codes ".\n"
    ++ codes "DOWNLOAD_URL=$(curl -sS 'https://api.github.com/repos/actions/runner/rel"
    ++ codes "eases/latest' \\\n"
    ++ codes "  | grep -o '\"browser_download_url\": *\"[^\"]*actions-runner-osx-arm64"
    ++ codes "-[0-9.]*\\.tar\\.gz\"' \\\n"
    ++ codes "  | cut -d'\"' -f4)\n"
    ++ codes "\n"
    ++ codes "RUNNER_DIR=\"$HOME/actions-runner\"\n"
    ++ codes "rm -rf \"$RUNNER_DIR\" && mkdir -p \"$RUNNER_DIR\" && cd \"$RUNNER_DIR\""
    ++ codes "\n"
    ++ codes "curl -sL \"$DOWNLOAD_URL\" | tar xz\n"
    ++ codes "\n"
    ++ codes "./run.sh\n"

-- The Docker part, empty for a port that is not positive.
pub docker_setup : ℤ → Text
docker_setup port =
    if ltb_ℤ (pos 0) port then docker_head ++ (decimal (pos_part port) ++ docker_tail) else []

-- StartupScript
pub startup_script : Text → ℤ → Text
startup_script jit_config docker_port =
    script_head ++ (jit_config ++ (script_middle ++ (docker_setup docker_port ++ script_tail)))

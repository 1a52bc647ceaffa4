-- ===== src/Command.antt =====
-- `build_command` of src/terminals.rs: the argument vector and the environment of a shell. The crate
-- portable_pty is a parameter; the server's own environment is the map `inherited`.
pub mod Environment
mod Tests
use webshell.Base.{
  ◌≡◌, Bool, true, false, not, Option, none, some, List, [], ◌∷◌, ◌++◌, map, if◌then◌else◌, Text,
  text_eq, codes, ◌=?◌,
}
use webshell.Base.Replace.{starts_with, replace}
use webshell.Base.Utf8.{from_utf8}
use webshell.HashMap
use webshell.HashMap.{HashMap}

-- What the program uses of `portable_pty::CommandBuilder`.
pub record CommandBuilder : Type 1 where
  pub Builder : Type 0
  pub new : Text → Builder
  pub args : List Text → Builder → Builder
  pub env : Text → Text → Builder → Builder
  pub env_remove : Text → Builder → Builder
  pub cwd : Text → Builder → Builder
  pub get_argv : Builder → List Text
  pub get_env : Text → Builder → Option Text

-- Its documentation: a new builder has the environment `inherited`, which is that of the server with
-- a SHELL put in if it has none, and each call changes the one thing it is named for.
pub record IsCommandBuilder (cb : CommandBuilder) (inherited : HashMap Text Text) : Type 0 where
  pub get_env-new : (k p : Text) → cb.get_env k (cb.new p) ≡ HashMap.get k inherited
  pub get_env-args :
      (k : Text) (a : List Text) (b : cb.Builder) → cb.get_env k (cb.args a b) ≡ cb.get_env k b
  pub get_env-env :
      (k j v : Text) (b : cb.Builder)
      → cb.get_env k (cb.env j v b) ≡ (if j =? k then some v else cb.get_env k b)
  pub get_env-env_remove :
      (k j : Text) (b : cb.Builder)
      → cb.get_env k (cb.env_remove j b) ≡ (if j =? k then none else cb.get_env k b)
  pub get_env-cwd : (k d : Text) (b : cb.Builder) → cb.get_env k (cb.cwd d b) ≡ cb.get_env k b
  pub get_argv-new : (p : Text) → cb.get_argv (cb.new p) ≡ p ∷ []
  pub get_argv-args :
      (a : List Text) (b : cb.Builder) → cb.get_argv (cb.args a b) ≡ cb.get_argv b ++ a
  pub get_argv-env : (j v : Text) (b : cb.Builder) → cb.get_argv (cb.env j v b) ≡ cb.get_argv b
  pub get_argv-env_remove :
      (j : Text) (b : cb.Builder) → cb.get_argv (cb.env_remove j b) ≡ cb.get_argv b
  pub get_argv-cwd : (d : Text) (b : cb.Builder) → cb.get_argv (cb.cwd d b) ≡ cb.get_argv b

is_secret_name : Option Text → Bool
is_secret_name none = false
is_secret_name (some k) = starts_with (codes "WEBSHELL_") k

-- `is_server_secret_env`
unfoldable pub is_server_secret_env : Text → Bool
unfolding is_secret_name
is_server_secret_env key = is_secret_name (from_utf8 key)

-- One part of the template with the user in it.
abbrev pub resolve_part : Text → Text → Text
resolve_part user part = replace (codes "{user}") user part

module _ (cb : CommandBuilder) where
  open cb use {Builder, new, args, env, env_remove, cwd}

  -- The loop over `vars_os`.
  remove_secrets : HashMap Text Text → Builder → Builder
  remove_secrets [] cmd = cmd
  remove_secrets ((key, _) ∷ vars) cmd =
      remove_secrets vars (if is_server_secret_env key then env_remove key cmd else cmd)

  -- The loop over the configured environment.
  set_all : HashMap Text Text → Builder → Builder
  set_all [] cmd = cmd
  set_all ((k, v) ∷ envs) cmd = set_all envs (env k v cmd)

  identify : Text → Text → Builder → Builder
  identify owner owner_home cmd = env (codes "LOGNAME") owner (
      env (codes "USER") owner
        (env (codes "HOME") owner_home (env (codes "TERM") (codes "xterm-256color") cmd)))

  assemble : List Text → Text → Text → HashMap Text Text → HashMap Text Text → Option Builder
  unfolding remove_secrets set_all identify
  assemble [] owner owner_home envs inherited = none
  assemble (program ∷ rest) owner owner_home envs inherited = some (
      set_all envs (
        cwd owner_home
          (identify owner owner_home (remove_secrets inherited (args rest (new program))))))

  -- `build_command`; `inherited` is what `vars_os` lists.
  unfoldable pub build_command :
      List Text → Text → Text → Text → HashMap Text Text → HashMap Text Text → Option Builder
  unfolding assemble
  build_command login_cmd user owner owner_home envs inherited =
      assemble (map (resolve_part user) login_cmd) owner owner_home envs inherited

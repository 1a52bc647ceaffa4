-- ===== src/Command/Environment.antt =====
-- What a shell finds in its environment, and with which arguments it starts.
use webshell.Base.{
  ◌≡◌, refl, ap, ◌∙◌, inl, inr, true, false, Option, none, some, List, [], ◌∷◌, ◌++◌, map, arith,
  if◌then◌else◌, Text, text_eq, codes, ◌=?◌, =?_iff, =?_refl, Bool-cases, Option-cases, some_inj,
}
use webshell.HashMap
use webshell.HashMap.{HashMap, Distinct}
use webshell.HashMap.Laws.{get-cons}
use webshell.Command.{
  CommandBuilder, IsCommandBuilder, is_server_secret_env, build_command, resolve_part,
  remove_secrets, set_all, identify, assemble,
}

-- The first of two values that is there.
abbrev pub or : Option Text → Option Text → Option Text
or none y = y
or (some x) y = some x

-- The variables that the server sets on every shell.
abbrev pub identity : Text → Text → HashMap Text Text
identity owner owner_home =
    (codes "LOGNAME", owner)
    ∷ (codes "USER", owner)
    ∷ (codes "HOME", owner_home)
    ∷ (codes "TERM", codes "xterm-256color")
    ∷ []

module _ (cb : CommandBuilder) (inherited : HashMap Text Text)
    (laws : IsCommandBuilder cb inherited) where
  open cb use {Builder, new, args, env, env_remove, cwd, get_env, get_argv}
  open laws use {
    get_env-new, get_env-args, get_env-env, get_env-env_remove, get_env-cwd, get_argv-new,
    get_argv-args, get_argv-env, get_argv-env_remove, get_argv-cwd,
  }

  unset : Text → Builder → Builder
  unset key cmd = if is_server_secret_env key then env_remove key cmd else cmd

  get_env-unset_public :
      (k j : Text) (cmd : Builder)
      → is_server_secret_env k ≡ false
      → get_env k (unset j cmd) ≡ get_env k cmd
  unfolding unset
  get_env-unset_public k j cmd h = elim (Bool-cases (is_server_secret_env j)) [
    | inl s ↦
        let other : (j =? k) ≡ false =
          ground (arith, =?_iff j k, ap is_server_secret_env {x = j} {y = k}) in
        rw s (get_env-env_remove k j cmd ∙ rw other refl)
    | inr s ↦ rw s
  ]

  remove_secrets-public :
      (k : Text) (vars : HashMap Text Text) (cmd : Builder)
      → is_server_secret_env k ≡ false
      → get_env k (remove_secrets cb vars cmd) ≡ get_env k cmd
  unfolding remove_secrets unset
  remove_secrets-public k [] cmd h = refl
  remove_secrets-public k ((j, v) ∷ vars) cmd h =
      remove_secrets-public k vars (unset j cmd) h ∙ get_env-unset_public k j cmd h

  get_env-unset-none :
      (k j : Text) (cmd : Builder) → get_env k cmd ≡ none → get_env k (unset j cmd) ≡ none
  unfolding unset
  get_env-unset-none k j cmd h = ground (arith, get_env-env_remove k j cmd)

  remove_secrets-none :
      (k : Text) (vars : HashMap Text Text) (cmd : Builder)
      → get_env k cmd ≡ none
      → get_env k (remove_secrets cb vars cmd) ≡ none
  unfolding remove_secrets unset
  remove_secrets-none k [] cmd h = h
  remove_secrets-none k ((j, v) ∷ vars) cmd h =
      remove_secrets-none k vars (unset j cmd) (get_env-unset-none k j cmd h)

  remove_secrets-listed :
      (k v : Text) (vars : HashMap Text Text) (cmd : Builder)
      → is_server_secret_env k ≡ true
      → HashMap.get k vars ≡ some v
      → get_env k (remove_secrets cb vars cmd) ≡ none
  unfolding remove_secrets unset HashMap.get
  remove_secrets-listed k v [] cmd s h = absurd (cc h)
  remove_secrets-listed k v ((j, w) ∷ vars) cmd s h = elim (Bool-cases (j =? k)) [
    | inl e ↦
        let same : j ≡ k = (=?_iff j k).0 e in
        remove_secrets-none k vars (unset j cmd)
          (rw (same, s) (get_env-env_remove k k cmd ∙ rw (=?_refl k) refl))
    | inr e ↦ remove_secrets-listed k v vars (unset j cmd) s (rw e at h)
  ]

  -- What is left of the server's own environment.
  get_env-remove_secrets :
      (k : Text) (cmd : Builder)
      → get_env k cmd ≡ HashMap.get k inherited
      → get_env k (remove_secrets cb inherited cmd)
        ≡ (if is_server_secret_env k then none else HashMap.get k inherited)
  get_env-remove_secrets k cmd h = elim (Bool-cases (is_server_secret_env k)) [
    | inl s ↦ rw s (elim (Option-cases (HashMap.get k inherited)) [
      | inl a ↦ remove_secrets-none k inherited cmd (h ∙ a)
      | inr (v, a) ↦ remove_secrets-listed k v inherited cmd s a
    ])
    | inr s ↦ rw s (remove_secrets-public k inherited cmd s ∙ h)
  ]

  -- One more variable on top of those in `m`.
  env_onto :
      (k j v : Text) (m : HashMap Text Text) (cmd : Builder) (base : Option Text)
      → get_env k cmd ≡ or (HashMap.get k m) base
      → get_env k (env j v cmd) ≡ or (HashMap.get k ((j, v) ∷ m)) base
  env_onto k j v m cmd base h = elim (Bool-cases (j =? k)) [
    | inl e ↦ rw (get-cons k j v m, get_env-env k j v cmd, e) refl
    | inr e ↦ rw (get-cons k j v m, get_env-env k j v cmd, e) h
  ]

  set_all_step :
      (k j v : Text) (envs : HashMap Text Text) (cmd : Builder)
      → HashMap.get j envs ≡ none
      → or (HashMap.get k envs) (get_env k (env j v cmd))
        ≡ or (HashMap.get k ((j, v) ∷ envs)) (get_env k cmd)
  set_all_step k j v envs cmd fresh = elim (Bool-cases (j =? k)) [
    | inl e ↦
        let absent : HashMap.get k envs ≡ none = rw (← (=?_iff j k).0 e) fresh in
        rw (get-cons k j v envs, get_env-env k j v cmd, e, absent) refl
    | inr e ↦ rw (get-cons k j v envs, get_env-env k j v cmd, e) refl
  ]

  get_env-set_all :
      (k : Text) (envs : HashMap Text Text) (cmd : Builder)
      → Distinct envs
      → get_env k (set_all cb envs cmd) ≡ or (HashMap.get k envs) (get_env k cmd)
  unfolding set_all HashMap.get
  get_env-set_all k [] cmd d = refl
  get_env-set_all k ((j, v) ∷ envs) cmd d =
      get_env-set_all k envs (env j v cmd) d.1 ∙ set_all_step k j v envs cmd d.0

  get_env-identify :
      (k owner owner_home : Text) (cmd : Builder)
      → get_env k (identify cb owner owner_home cmd)
        ≡ or (HashMap.get k (identity owner owner_home)) (get_env k cmd)
  unfolding identify HashMap.get
  get_env-identify k owner owner_home cmd =
      let term_var = (codes "TERM", codes "xterm-256color") ∷ [] in
      let home_var = (codes "HOME", owner_home) ∷ term_var in
      let base = get_env k cmd in
      env_onto k _ _ ((codes "USER", owner) ∷ home_var) _ base (
        env_onto k _ _ home_var _ base
          (env_onto k _ _ term_var _ base (env_onto k _ _ [] cmd base refl)))

  argv-remove_secrets :
      (vars : HashMap Text Text) (cmd : Builder)
      → get_argv (remove_secrets cb vars cmd) ≡ get_argv cmd
  unfolding remove_secrets
  argv-remove_secrets [] cmd = refl
  argv-remove_secrets ((j, v) ∷ vars) cmd = elim (Bool-cases (is_server_secret_env j)) [
    | inl e ↦ rw e (argv-remove_secrets vars (env_remove j cmd) ∙ get_argv-env_remove j cmd)
    | inr e ↦ rw e (argv-remove_secrets vars cmd)
  ]

  argv-set_all :
      (envs : HashMap Text Text) (cmd : Builder) → get_argv (set_all cb envs cmd) ≡ get_argv cmd
  unfolding set_all
  argv-set_all [] cmd = refl
  argv-set_all ((j, v) ∷ envs) cmd = argv-set_all envs (env j v cmd) ∙ get_argv-env j v cmd

  argv-identify :
      (owner owner_home : Text) (cmd : Builder)
      → get_argv (identify cb owner owner_home cmd) ≡ get_argv cmd
  unfolding identify
  argv-identify owner owner_home cmd =
      get_argv-env _ _ _ ∙ get_argv-env _ _ _ ∙ get_argv-env _ _ _ ∙ get_argv-env _ _ _

  -- The command that the server starts a shell with: its arguments, and each variable's value.
  abbrev pub Starts : List Text → Text → Text → HashMap Text Text → Builder → Type 0
  Starts argv owner owner_home envs b =
      (get_argv b ≡ argv)
      × ((k : Text)
          → get_env k b
            ≡ or (HashMap.get k envs) (
                or (HashMap.get k (identity owner owner_home))
                  (if is_server_secret_env k then none else HashMap.get k inherited)))

  assemble-Starts :
      (program : Text) (rest : List Text) (owner owner_home : Text) (envs : HashMap Text Text)
      → Distinct envs
      → (b : Builder) → assemble cb (program ∷ rest) owner owner_home envs inherited ≡ some b
      → Starts (program ∷ rest) owner owner_home envs b
  unfolding assemble
  assemble-Starts program rest owner owner_home envs d b e =
      let fresh = args rest (new program) in
      let own = identify cb owner owner_home (remove_secrets cb inherited fresh) in
      rw (← some_inj e) (
        argv-set_all envs (cwd owner_home own)
            ∙ get_argv-cwd owner_home own
            ∙ argv-identify owner owner_home (remove_secrets cb inherited fresh)
            ∙ argv-remove_secrets inherited fresh
            ∙ get_argv-args rest (new program)
            ∙ ap (λ a. a ++ rest) (get_argv-new program),
        λ k.
            get_env-set_all k envs (cwd owner_home own) d
            ∙ ap (or (HashMap.get k envs)) (
                get_env-cwd k owner_home own
                ∙ get_env-identify k owner owner_home (remove_secrets cb inherited fresh)
                ∙ ap (or (HashMap.get k (identity owner owner_home))) (
                    get_env-remove_secrets k fresh
                      (get_env-args k rest (new program) ∙ get_env-new k program))),
      )

  -- With a command template that is not empty a shell starts with the template's parts, the user in
  -- place of `{user}`, and in each variable it has the configured value, or else its identity, or
  -- else the value that the server has itself, unless the variable is one of the server's secrets.
  pub build_command_lem :
      (login_cmd : List Text) (user owner owner_home : Text) (envs : HashMap Text Text)
      (b : Builder)
      → Distinct envs
      → build_command cb login_cmd user owner owner_home envs inherited ≡ some b
      → Starts (map (resolve_part user) login_cmd) owner owner_home envs b
  unfolding build_command
  build_command_lem [] user owner owner_home envs b d e = absurd (unfold assemble in cc e)
  build_command_lem (part ∷ parts) user owner owner_home envs b d e =
      assemble-Starts (resolve_part user part) (map (resolve_part user) parts) owner owner_home envs
        d b e

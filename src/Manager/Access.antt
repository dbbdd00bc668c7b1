-- ===== src/Manager/Access.antt =====
-- config/config.go: GitHubPrivateKeyPEM; manager/manager.go: how the manager logs in to GitHub. The
-- file system and the scale set client's constructors are parameters.
use orchard_gh_bridge.Base.{
  ◌≡◌, ◌≢◌, ◌⊎◌, refl, inl, inr, true, false, not, if◌then◌else◌, Text, codes, is_empty, plain, err,
  Io, ◌>>=◌, pure, wrap_err, Bool-cases, arith,
}
use orchard_gh_bridge.Base.Int.{ℤ, pos}
use orchard_gh_bridge.Config.{GithubConfig}
use orchard_gh_bridge.Config.Validate.{has_auth}

-- What a client is made with: a personal access token, or an app's ID, installation and key.
pub data Login : Type 0 where
  token : Text → Login
  app : (app_id installation_id : ℤ) → (private_key : Text) → Login

module _ {W : Type 0} (read_file : Text → Io W Text) where
  -- GitHubPrivateKeyPEM
  pub github_private_key_pem : GithubConfig → Io W Text
  github_private_key_pem gh =
      if not (is_empty gh.private_key)
      then pure gh.private_key
      else if not (is_empty gh.private_key_path)
      then wrap_err (codes "reading private key file") (read_file gh.private_key_path)
      else λ w. (err (plain (codes "no private key configured")), w)

  module _ {C : Type 0} (connect : Text → Login → Io W C) where
    -- defaultNewGHClient
    pub default_new_gh_client : GithubConfig → Text → Io W C
    default_new_gh_client gh config_url =
        if not (is_empty gh.token) then connect config_url (token gh.token) else (do
          pem ← wrap_err (codes "reading private key") (github_private_key_pem gh)
          connect config_url (app gh.app_id gh.installation_id pem))

    -- The login that the configuration asks for.
    abbrev pub ByToken : GithubConfig → Text → Type 0
    ByToken gh url =
        (is_empty gh.token ≡ false)
        × ((w : W) → default_new_gh_client gh url w ≡ connect url (token gh.token) w)

    abbrev pub ByKey : GithubConfig → Text → Type 0
    ByKey gh url =
        (is_empty gh.token ≡ true)
        × (is_empty gh.private_key ≡ false)
        × ((w : W)
            → default_new_gh_client gh url w
              ≡ connect url (app gh.app_id gh.installation_id gh.private_key) w)

    abbrev pub ByFile : GithubConfig → Text → Type 0
    ByFile gh url =
        (is_empty gh.token ≡ true)
        × (is_empty gh.private_key ≡ true)
        × (is_empty gh.private_key_path ≡ false)
        × ((w : W)
            → default_new_gh_client gh url w
              ≡ (do
                pem ←
                    wrap_err (codes "reading private key")
                      (wrap_err (codes "reading private key file") (read_file gh.private_key_path))
                connect url (app gh.app_id gh.installation_id pem))
                  w)

    -- With authentication as Validate asks for, the manager logs in with the token if there is
    -- one, else, with an app and an installation that are not zero, with the private key of the
    -- configuration or else that of the file; it never misses a key.
    pub default_new_gh_client_lem :
        (gh : GithubConfig) (url : Text)
        → has_auth gh ≡ true
        → ByToken gh url
          ⊎ ((gh.app_id ≢ pos 0) × (gh.installation_id ≢ pos 0) × (ByKey gh url ⊎ ByFile gh url))
    unfolding default_new_gh_client github_private_key_pem has_auth
    default_new_gh_client_lem gh url h = elim (Bool-cases (is_empty gh.token)) [
      | inr t ↦ inl (t, λ w. rw t refl)
      | inl t ↦ inr (
        λ e. ground (arith, h, t, e),
        λ e. ground (arith, h, t, e),
        elim (Bool-cases (is_empty gh.private_key)) [
          | inr k ↦ inl (t, k, λ w. rw (t, k) refl)
          | inl k ↦
              let path : is_empty gh.private_key_path ≡ false = ground (arith, h, t, k) in
              inr (t, k, path, λ w. rw (t, k, path) refl)
        ],
      )
    ]

-- ===== src/Config/Layers.antt =====
-- The layers of the configuration of src/config.cpp: the defaults, the file, the environment.
use Prim.Native.String
use mathlib.Core.Path.{fun_ext}
use ioh_robodog_webrtc.Prelude.{String, false, none, some, codes, ◌≡◌, refl, sym, ap, ◌∙◌}
use ioh_robodog_webrtc.Prelude.Int.{ℤ, pos, wrap_unsigned, IsInt32}
use ioh_robodog_webrtc.Prelude.Results.{Result, ok, err, ◌>>=◌, >>=-eq-ok}
use ioh_robodog_webrtc.Prelude.Decimal.{to_bytes, stoi-to_bytes}
use ioh_robodog_webrtc.Config.{AppConfig, default_config}
use ioh_robodog_webrtc.Config.Load.{
  Yaml, Env, env_or, env_int_or, override, load_failure, read_file, apply_env, load_config,
}

-- A number printed into an environment variable, as `export NAME=$n` does.
abbrev pub Prints : Env → String → ℤ → Type 0
Prints env name k = (s : String) × (env name ≡ some s) × (codes s ≡ to_bytes k)

-- A variable that holds a printed `int` is read back exactly.
pub env_int_or_printed :
    (env : Env) (name : String) (k fallback : ℤ)
    → Prints env name k
    → IsInt32 k
    → env_int_or env name fallback ≡ ok k
unfolding env_int_or
env_int_or_printed env name k fallback (s, set, printed) h =
    rw (set, env_int_or) (rw printed (stoi-to_bytes k h))

-- A value that is the configuration of its file, overridden.
abbrev pub IsLayered : Env → AppConfig → AppConfig → Type 0
IsLayered env base c =
    (port : ℤ) × (bitrate : ℤ) × (most : ℤ) × (env_int_or env "SIGNALING_PORT"
        (pos base.server.signaling_port)
      ≡ ok port)
    × (env_int_or env "VIDEO_BITRATE_KBPS" base.webrtc.video.bitrate_kbps ≡ ok bitrate)
    × (env_int_or env "VIDEO_MAX_BITRATE_KBPS" base.webrtc.video.max_bitrate_kbps ≡ ok most)
    × (override env port bitrate most base ≡ c)

-- Inversion of three calls that may throw.
three_calls {ℓ} :
    {A : Type ℓ} (x y z : Result ℤ) (k : ℤ → ℤ → ℤ → A) {c : A}
    → (x >>= λ a. y >>= λ b. z >>= λ d. ok (k a b d)) ≡ ok c
    → (a : ℤ) × (b : ℤ) × (d : ℤ) × (x ≡ ok a) × (y ≡ ok b) × (z ≡ ok d) × (k a b d ≡ c)
three_calls (ok a) (ok b) (ok d) k h = (a, b, d, refl, refl, refl, cc)
three_calls (ok a) (ok b) (err e) k h = cc
three_calls (ok a) (err e) z k h = cc
three_calls (err e) y z k h = cc

apply_env-IsLayered :
    (env : Env) (base c : AppConfig) → apply_env env base ≡ ok c → IsLayered env base c
unfolding apply_env
apply_env-IsLayered env base c h =
    three_calls (env_int_or env "SIGNALING_PORT" (pos base.server.signaling_port))
      (env_int_or env "VIDEO_BITRATE_KBPS" base.webrtc.video.bitrate_kbps)
      (env_int_or env "VIDEO_MAX_BITRATE_KBPS" base.webrtc.video.max_bitrate_kbps)
      (λ port bitrate most. override env port bitrate most base) h

ok-injective {ℓ} : {A : Type ℓ} {a b : A} → ok a ≡ ok b → a ≡ b
ok-injective h = cc

-- A load that succeeds is a file that is read, and its sections, overridden.
load_config-eq-ok :
    (yaml : Yaml) (env : Env) (path : String) (c : AppConfig)
    → load_config yaml env path ≡ ok c
    → (root : yaml.Node) × (base : AppConfig) × (yaml.load_file path ≡ ok root)
      × (read_file yaml root ≡ ok base)
      × IsLayered env base c
unfolding load_config
load_config-eq-ok yaml env path c h = loaded (yaml.load_file path) refl h
  where
    loaded :
        (r : Result yaml.Node)
        → yaml.load_file path ≡ r
        → (load_failure r >>= λ root. read_file yaml root >>= λ b. apply_env env b) ≡ ok c
        → (root : yaml.Node) × (base : AppConfig) × (yaml.load_file path ≡ ok root)
          × (read_file yaml root ≡ ok base)
          × IsLayered env base c
    loaded (ok root) e h =
        let (base, read, env_h) = >>=-eq-ok (read_file yaml root) (λ b. apply_env env b) h in
        (root, base, e, read, apply_env-IsLayered env base c env_h)
    loaded (err what) e h = cc

IsLayered-env_wins :
    (env : Env) (url : String) (port bitrate most : ℤ) (base c : AppConfig)
    → env "RTSP_URL" ≡ some url
    → Prints env "SIGNALING_PORT" port
    → Prints env "VIDEO_BITRATE_KBPS" bitrate
    → Prints env "VIDEO_MAX_BITRATE_KBPS" most
    → IsInt32 port
    → IsInt32 bitrate
    → IsInt32 most
    → IsLayered env base c
    → (c.rtsp.url ≡ url)
      × (c.server.signaling_port ≡ wrap_unsigned 16 port)
      × (c.webrtc.video.bitrate_kbps ≡ bitrate)
      × (c.webrtc.video.max_bitrate_kbps ≡ most)
unfolding override env_or
IsLayered-env_wins env url port bitrate most base c u p b m ip ib im
      (port', bitrate', most', e₁, e₂, e₃, o) =
    let q₁ : ok port' ≡ ok port = sym e₁ ∙ env_int_or_printed env "SIGNALING_PORT" port _ p ip in
    let q₂ : ok bitrate' ≡ ok bitrate =
      sym e₂ ∙ env_int_or_printed env "VIDEO_BITRATE_KBPS" bitrate _ b ib in
    let q₃ : ok most' ≡ ok most =
      sym e₃ ∙ env_int_or_printed env "VIDEO_MAX_BITRATE_KBPS" most _ m im in
    (
      sym (ap (λ k. k.rtsp.url) o) ∙ rw (u, env_or) refl,
      sym (ap (λ k. k.server.signaling_port) o) ∙ ap (wrap_unsigned 16) (ok-injective q₁),
      sym (ap (λ k. k.webrtc.video.bitrate_kbps) o) ∙ ok-injective q₂,
      sym (ap (λ k. k.webrtc.video.max_bitrate_kbps) o) ∙ ok-injective q₃,
    )

-- The environment has the last word on the stream's address, the port and the bit rates: a load
-- that succeeds has the address of RTSP_URL and the numbers that the three numeric variables print,
-- the port modulo 2 ^ 16, whatever the file says.
pub load_config-env_wins :
    (yaml : Yaml) (env : Env) (path url : String) (port bitrate most : ℤ) (c : AppConfig)
    → env "RTSP_URL" ≡ some url
    → Prints env "SIGNALING_PORT" port
    → Prints env "VIDEO_BITRATE_KBPS" bitrate
    → Prints env "VIDEO_MAX_BITRATE_KBPS" most
    → IsInt32 port
    → IsInt32 bitrate
    → IsInt32 most
    → load_config yaml env path ≡ ok c
    → (c.rtsp.url ≡ url)
      × (c.server.signaling_port ≡ wrap_unsigned 16 port)
      × (c.webrtc.video.bitrate_kbps ≡ bitrate)
      × (c.webrtc.video.max_bitrate_kbps ≡ most)
load_config-env_wins yaml env path url port bitrate most c u p b m ip ib im h =
    let (root, base, _, _, layers) = load_config-eq-ok yaml env path c h in
    IsLayered-env_wins env url port bitrate most base c u p b m ip ib im layers

base_unique :
    (yaml : Yaml) (path : String) {root root' : yaml.Node} {base base' : AppConfig}
    → yaml.load_file path ≡ ok root
    → yaml.load_file path ≡ ok root'
    → read_file yaml root ≡ ok base
    → read_file yaml root' ≡ ok base'
    → base ≡ base'
base_unique yaml path e e' r r' =
    ok-injective (sym r ∙ ap (read_file yaml) (ok-injective (sym e ∙ e')) ∙ r')

kept_by_override {ℓ} :
    {A : Type ℓ} (yaml : Yaml) (env env' : Env) (path : String) (c c' : AppConfig)
    → load_config yaml env path ≡ ok c
    → load_config yaml env' path ≡ ok c'
    → (f : AppConfig → A) → ((e : Env) (p b m : ℤ) (k : AppConfig) → f (override e p b m k) ≡ f k)
    → f c ≡ f c'
kept_by_override yaml env env' path c c' h h' f same =
    let (root, base, e, r, (p, b, m, _, _, _, o)) = load_config-eq-ok yaml env path c h in
    let (root', base', e', r', (p', b', m', _, _, _, o')) =
      load_config-eq-ok yaml env' path c' h' in
    sym (ap f o)
    ∙ same env p b m base
    ∙ ap f (base_unique yaml path e e' r r')
    ∙ sym (same env' p' b' m' base')
    ∙ ap f o'

-- What no variable names is the file's: two environments under which the load succeeds give the
-- same HTTP port, web root, transport, reconnect settings, peer limit, lowest bit rate and encoding.
load_config-file_only :
    (yaml : Yaml) (env env' : Env) (path : String) (c c' : AppConfig)
    → load_config yaml env path ≡ ok c
    → load_config yaml env' path ≡ ok c'
    → (c.server.http_port ≡ c'.server.http_port)
      × (c.server.web_root ≡ c'.server.web_root)
      × (c.rtsp.transport ≡ c'.rtsp.transport)
      × (c.rtsp.latency_ms ≡ c'.rtsp.latency_ms)
      × (c.rtsp.reconnect_interval_ms ≡ c'.rtsp.reconnect_interval_ms)
      × (c.rtsp.reconnect_max_attempts ≡ c'.rtsp.reconnect_max_attempts)
      × (c.webrtc.max_peers ≡ c'.webrtc.max_peers)
      × (c.webrtc.video.min_bitrate_kbps ≡ c'.webrtc.video.min_bitrate_kbps)
      × (c.encoding ≡ c'.encoding)
unfolding override
load_config-file_only yaml env env' path c c' h h' = (
  kept_by_override yaml env env' path c c' h h' (λ k. k.server.http_port) (λ e p b m k. refl),
  kept_by_override yaml env env' path c c' h h' (λ k. k.server.web_root) (λ e p b m k. refl),
  kept_by_override yaml env env' path c c' h h' (λ k. k.rtsp.transport) (λ e p b m k. refl),
  kept_by_override yaml env env' path c c' h h' (λ k. k.rtsp.latency_ms) (λ e p b m k. refl),
  kept_by_override yaml env env' path c c' h h' (λ k. k.rtsp.reconnect_interval_ms)
      (λ e p b m k. refl),
  kept_by_override yaml env env' path c c' h h' (λ k. k.rtsp.reconnect_max_attempts)
      (λ e p b m k. refl),
  kept_by_override yaml env env' path c c' h h' (λ k. k.webrtc.max_peers) (λ e p b m k. refl),
  kept_by_override yaml env env' path c c' h h' (λ k. k.webrtc.video.min_bitrate_kbps)
      (λ e p b m k. refl),
  kept_by_override yaml env env' path c c' h h' (λ k. k.encoding) (λ e p b m k. refl),
)

-- With no variable set, a file that has none of the five sections gives the defaults.
pub load_config-defaults :
    (yaml : Yaml) (env : Env) (path : String) (root : yaml.Node) (bare : yaml.Node)
    → yaml.load_file path ≡ ok root
    → ((key : String) → yaml.get root key ≡ ok bare)
    → yaml.present bare ≡ false
    → ((name : String) → env name ≡ none)
    → load_config yaml env path ≡ ok default_config
unfolding load_config
load_config-defaults yaml env path root bare e g a unset =
    rw e (rw (fun_ext g, a) (rw (fun_ext unset)))

-- A file that cannot be read fails the load with the message of the library, whatever is in the
-- environment.
pub load_config-unreadable :
    (yaml : Yaml) (env : Env) (path what : String)
    → yaml.load_file path ≡ err what
    → load_config yaml env path ≡ err (String.◌++◌ "Failed to load config: " what)
unfolding load_config
load_config-unreadable yaml env path what e = rw e

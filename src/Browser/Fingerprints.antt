-- ===== src/Browser/Fingerprints.antt =====
-- web-automator/app/browser.py: the pools of fingerprints, and `_random_fingerprint`.
pub mod Consistency
use alex_claw.Prelude.{ℕ, zero, suc, List, [], ◌∷◌, if◌then◌else◌}
use alex_claw.Text.{Text, codes, has_text, partition}

abbrev pub user_agents : List Text
user_agents =
    codes
      "Mozilla/5.0 (Windows NT 10.0; Win64; x64) AppleWebKit/537.36 (KHTML, like Gecko) Chrome/124.0.0.0 Safari/537.36"
    ∷ codes
        "Mozilla/5.0 (Macintosh; Intel Mac OS X 10_15_7) AppleWebKit/537.36 (KHTML, like Gecko) Chrome/124.0.0.0 Safari/537.36"
    ∷ codes
        "Mozilla/5.0 (Windows NT 10.0; Win64; x64) AppleWebKit/537.36 (KHTML, like Gecko) Chrome/123.0.0.0 Safari/537.36"
    ∷ codes
        "Mozilla/5.0 (Macintosh; Intel Mac OS X 10_15_7) AppleWebKit/537.36 (KHTML, like Gecko) Chrome/123.0.0.0 Safari/537.36"
    ∷ codes
        "Mozilla/5.0 (Windows NT 10.0; Win64; x64) AppleWebKit/537.36 (KHTML, like Gecko) Chrome/122.0.0.0 Safari/537.36"
    ∷ codes
        "Mozilla/5.0 (Windows NT 10.0; Win64; x64) AppleWebKit/537.36 (KHTML, like Gecko) Chrome/124.0.0.0 Safari/537.36 Edg/124.0.0.0"
    ∷ codes
        "Mozilla/5.0 (X11; Linux x86_64) AppleWebKit/537.36 (KHTML, like Gecko) Chrome/124.0.0.0 Safari/537.36"
    ∷ []

abbrev pub viewports : List (ℕ × ℕ)
viewports =
    (1920, 1080)
    ∷ (1366, 768)
    ∷ (1536, 864)
    ∷ (1440, 900)
    ∷ (1680, 1050)
    ∷ (2560, 1440)
    ∷ (1280, 720)
    ∷ []

abbrev pub locales : List Text
locales = codes "en-US" ∷ codes "en-GB" ∷ codes "en-CA" ∷ codes "en-AU" ∷ []

abbrev pub timezones : List Text
timezones =
    codes "America/New_York"
    ∷ codes "America/Chicago"
    ∷ codes "America/Los_Angeles"
    ∷ codes "America/Denver"
    ∷ codes "Europe/London"
    ∷ codes "Europe/Berlin"
    ∷ codes "Europe/Rome"
    ∷ []

abbrev pub webgl_vendors : List Text
webgl_vendors =
    codes "Google Inc. (NVIDIA)" ∷ codes "Google Inc. (AMD)" ∷ codes "Google Inc. (Intel)" ∷ []

abbrev pub webgl_renderers : List Text
webgl_renderers =
    codes "ANGLE (NVIDIA, NVIDIA GeForce RTX 3060 Direct3D11 vs_5_0 ps_5_0, D3D11)"
    ∷ codes "ANGLE (NVIDIA, NVIDIA GeForce GTX 1660 SUPER Direct3D11 vs_5_0 ps_5_0, D3D11)"
    ∷ codes "ANGLE (AMD, AMD Radeon RX 580 Direct3D11 vs_5_0 ps_5_0, D3D11)"
    ∷ codes "ANGLE (Intel, Intel(R) UHD Graphics 630 Direct3D11 vs_5_0 ps_5_0, D3D11)"
    ∷ codes "ANGLE (NVIDIA, NVIDIA GeForce RTX 4070 Direct3D11 vs_5_0 ps_5_0, D3D11)"
    ∷ codes "ANGLE (AMD, AMD Radeon RX 6700 XT Direct3D11 vs_5_0 ps_5_0, D3D11)"
    ∷ []

-- `random.choice(l)` where the source of chance says `i`: a number past the end gives the last.
unfoldable pub choice {ℓ} : {A : Type ℓ} → A → List A → ℕ → A
choice x [] i = x
choice x (y ∷ l) zero = x
choice x (y ∷ l) (suc i) = choice y l i

-- The device's scale factor is counted in hundredths.
pub record Fingerprint : Type 0 where
  pub user_agent : Text
  pub viewport : ℕ × ℕ
  pub locale : Text
  pub timezone_id : Text
  pub webgl_vendor : Text
  pub webgl_renderer : Text
  pub color_depth : ℕ
  pub device_scale_factor : ℕ
  pub hardware_concurrency : ℕ
  pub platform : Text
  pub languages : Text × Text

-- What the source of chance says at each draw.
pub record Draws : Type 0 where
  pub user_agent : ℕ
  pub viewport : ℕ
  pub locale : ℕ
  pub timezone : ℕ
  pub vendor : ℕ
  pub renderer : ℕ
  pub depth : ℕ
  pub scale : ℕ
  pub cores : ℕ

unfoldable pub platform_of : Text → Text
platform_of ua =
    if has_text ua (codes "Windows")
    then codes "Win32"
    else if has_text ua (codes "Mac")
    then codes "MacIntel"
    else codes "Linux x86_64"

-- `random.choice` of a list with an element.
unfoldable pub pick {ℓ} : {A : Type ℓ} → A → List A → ℕ → A
pick d [] i = d
pick d (x ∷ l) i = choice x l i

-- `_random_fingerprint`
unfoldable pub random_fingerprint : Draws → Fingerprint
random_fingerprint d =
    let ua = pick [] user_agents d.user_agent in
    let locale = pick [] locales d.locale in
    record {
      user_agent = ua;
      viewport = pick (0, 0) viewports d.viewport;
      locale = locale;
      timezone_id = pick [] timezones d.timezone;
      webgl_vendor = pick [] webgl_vendors d.vendor;
      webgl_renderer = pick [] webgl_renderers d.renderer;
      color_depth = pick 0 (24 ∷ 32 ∷ []) d.depth;
      device_scale_factor = pick 0 (100 ∷ 125 ∷ 150 ∷ 200 ∷ []) d.scale;
      hardware_concurrency = pick 0 (4 ∷ 8 ∷ 12 ∷ 16 ∷ []) d.cores;
      platform = platform_of ua;
      languages = (locale, (partition b'-' locale).before);
    }

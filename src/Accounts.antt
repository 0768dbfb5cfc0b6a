-- ===== src/Accounts.antt =====
-- The accounts of shop owners and their staff: internal/store/user.go and the handlers that use it.
-- `Signup` and `Setup` make a shop with its owner, by internal/httpapi/public_signup.go and by
-- cmd/setup/main.go; `Opening` and `Entrance` follow the owner to the login.
pub mod Users
pub mod Stores
pub mod Login
pub mod Guesses
pub mod Stale
pub mod Active
pub mod World
pub mod Signup
pub mod Setup
pub mod Opening
pub mod Entrance
pub mod Overlap
pub mod Requests
pub mod Desk
pub mod Settings

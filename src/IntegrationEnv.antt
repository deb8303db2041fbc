-- ===== src/IntegrationEnv.antt =====
-- internal/testutil/integrationenv/env.go and cmd/integration-doctor/main.go: the settings of the
-- integration tests, unique names of databases, and the tool that checks and reports them.
mod Text
mod Defs
mod Names
mod DotEnv
mod Settings
mod Report
mod RepoRoot
mod Doctor
mod Tests

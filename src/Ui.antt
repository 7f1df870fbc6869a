-- ===== src/Ui.antt =====
-- pkg/ui: the prompts of the terminal.
pub mod Prompter
pub mod Focus
pub mod Steps
pub mod Runs
mod Tests

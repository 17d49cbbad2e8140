-- ===== src/Tests.antt =====
-- Tests of the models on concrete inputs, and the theorems at inputs that meet their hypotheses.
mod Calculator
mod Passes
mod Jobs
mod Lists
mod Workers
mod Strings
mod Buffers
mod Builder
mod Machine
mod Threads

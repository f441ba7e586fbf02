-- ===== src/App.antt =====
-- The app, in ThermoCheck/ThermoCheck: the entry points of temperature and humidity, the databases
-- that they are kept in, and the view controllers that enter and draw them and that sign the user in.
--
-- Firebase, SQLite.swift and UIKit are outside: what they answer, and when, is chosen by the
-- environment.
pub mod EntryPoint
pub mod Sql
pub mod AddPoint
pub mod Chart
pub mod Login
pub mod Register
pub mod Session
